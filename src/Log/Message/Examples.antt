-- ===== src/Log/Message/Examples.antt =====
-- Two messages of Message.hpp.
use async_log_cloud_storage.Base.{◌≡◌, refl, codes, arith, to_string}
use async_log_cloud_storage.Log.Flush.{Tm}
use async_log_cloud_storage.Log.Message.{
  LogMessage, info, fatal, format, header, date_time, two_digits, level_string,
}
use async_log_cloud_storage.Log.Message.Lines.{OneLine}

abbrev evening : Tm
evening = record { tm_year = 125; tm_mon = 8; tm_mday = 4; tm_hour = 16; tm_min = 31; tm_sec = 6 }

abbrev hello : LogMessage
hello = record {
  level = info;
  filename = codes "m.cpp";
  line = 54;
  timestamp = evening;
  message = codes "hello";
  logger_name = codes "x";
  tid = codes "140";
}

abbrev bye : LogMessage
bye = record hello { level = fatal; message = codes "bye" }

bye_text : format bye ≡ codes "[2025-09-04 16:31:06][140][FATAL][x][m.cpp:54]\tbye\n"
unfolding format header date_time to_string two_digits level_string
bye_text = refl

hello-OneLine : OneLine hello
hello-OneLine = record {
  in_file = ground arith;
  in_message = ground arith;
  in_name = ground arith;
  in_tid = ground arith;
}

bye-OneLine : OneLine bye
bye-OneLine = record {
  in_file = ground arith;
  in_message = ground arith;
  in_name = ground arith;
  in_tid = ground arith;
}
