-- ===== src/Barista/Written/Order.antt =====
-- The order of write requests.
use deca_fs.Prelude.{◌≡◌, true, false, arith}
use deca_fs.OrdMap.{IsStrictOrder}
use deca_fs.Barista.{WriteRequest, write_request_lt}

write_request_lt_irrefl : (a : WriteRequest) → write_request_lt a a ≡ false
unfolding write_request_lt
write_request_lt_irrefl a = ground arith

write_request_lt_trans :
    (a b c : WriteRequest)
    → write_request_lt a b ≡ true
    → write_request_lt b c ≡ true
    → write_request_lt a c ≡ true
unfolding write_request_lt
write_request_lt_trans a b c h k = ground arith

write_request_lt_connected :
    (a b : WriteRequest) → write_request_lt a b ≡ false → write_request_lt b a ≡ false → a ≡ b
unfolding write_request_lt
write_request_lt_connected a b h k = ground arith

-- What std::map asks of operator< of write_request: a strict total order.
pub write_request_lt-IsStrictOrder : IsStrictOrder write_request_lt
write_request_lt-IsStrictOrder = record {
  irrefl = write_request_lt_irrefl;
  lt_trans = write_request_lt_trans;
  connected = write_request_lt_connected;
}
