-- ===== src/Barista/Gathered.antt =====
-- A read is answered when the last response is in, with the chunks in their order, whatever the order in
-- which they arrive.
pub mod Keys
use deca_fs.Prelude.{ℕ, List, [], ◌∷◌, Bool, ltb, map}
use deca_fs.OrdMap.{IsStrictOrder, assign}
use deca_fs.OrdMap.Swap.{enter}
use deca_fs.Types.File.{FileChunk}
use deca_fs.Barista.{ReadRequestInfo, Barista, Run, served, ◌>>=◌}
use deca_fs.Barista.Requests.{ReadResponse, read_buffer, gathered, read_response_handler}

-- The packet that a response is filed as
abbrev pub packet_of : ReadResponse → FileChunk × List ℕ
packet_of x = (x.chunk, read_buffer x.count x.data_buffer)

module _ (lt : FileChunk → FileChunk → Bool) where
  -- The responses handled one after the other
  unfoldable pub receive_all : List ReadResponse → Barista → Run Barista
  unfolding read_response_handler
  receive_all [] b = served b
  receive_all (x ∷ xs) b = read_response_handler lt x b >>= λ b'. receive_all xs b'

  module _ (id : ℕ) where
    abbrev filed : ReadRequestInfo → Barista → Barista
    filed r b = record b { active_read_requests = assign ltb id r b.active_read_requests }

    abbrev all_packets : List ReadResponse → ReadRequestInfo → List ℕ
    all_packets xs r = gathered (enter lt (map packet_of xs) r.response_packets)
