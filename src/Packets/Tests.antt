-- ===== src/Packets/Tests.antt =====
-- Packets made and read.
use deca_fs.Prelude.{◌≡◌, [], ◌∷◌, some, arith}
use deca_fs.Prelude.Int.{pos, negsuc}
use deca_fs.Packets.{
  FileFields, chunk_fields, file_data_packet, parse_file_data_packet, flag_write_chunk,
}
use deca_fs.Packets.RoundTrip.{AreWords, parse-file_data_packet}

abbrev fields : FileFields
fields = chunk_fields 0 300 1 2 70000 (pos 3)

abbrev deleted : FileFields
deleted = chunk_fields 0 300 1 2 4294967295 (negsuc 0)

fields-AreWords : AreWords fields
fields-AreWords = record {
  fd_word = omega arith;
  file_word = omega arith;
  stripe_word = omega arith;
  chunk_word = omega arith;
  offset_word = omega arith;
  count_int = omega arith;
}

deleted-AreWords : AreWords deleted
deleted-AreWords = record {
  fd_word = omega arith;
  file_word = omega arith;
  stripe_word = omega arith;
  chunk_word = omega arith;
  offset_word = omega arith;
  count_int = omega arith;
}

parse-file_data_packet_example :
    parse_file_data_packet (file_data_packet 9 flag_write_chunk fields (5 ∷ 6 ∷ 7 ∷ 8 ∷ []))
    ≡ some (record { packet_size = 39; id = 9; flag = 27 }, fields, some (5 ∷ 6 ∷ 7 ∷ []))
parse-file_data_packet_example =
    parse-file_data_packet 9 flag_write_chunk fields (5 ∷ 6 ∷ 7 ∷ 8 ∷ []) fields-AreWords
      (omega arith) (omega arith)
