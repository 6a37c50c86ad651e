-- ===== src/IndexServer/Samples.antt =====
-- A socket and an index in place of the parameters of
-- lantern_cli/src/external_index/server.rs, and rows on them.
use lanterndb.Prelude.{◌≡◌, [], ◌∷◌, ap, refl}
use lanterndb.Prelude.{
  ℕ, refl, Bool, true, List, [], ◌∷◌, ◌++◌, leb, if◌then◌else◌, arith, length, take, drop,
  length-take, take-append-drop, Result, ok, err,
}
use lanterndb.IndexServer.Protocol.{Connection}
use lanterndb.IndexServer.Protocol.Framing.{IsStream}
use lanterndb.IndexServer.Protocol.Prompt.{IsPrompt}
use lanterndb.IndexServer.Rows.{Row, UsearchIndex, Receiving}
use lanterndb.IndexServer.Rows.Complete.{IsReady}
use lanterndb.IndexServer.Rows.Capacity.{IsReserving}
use lanterndb.IndexServer.Session.Written.{IsWriter}

-- The bytes that the peer has sent and those that the server has written.
pub record Socket : Type 0 where
  pub incoming : List ℕ
  pub outgoing : List ℕ

abbrev pub whole : ℕ → Socket → Result ℕ (List ℕ) × Socket
whole n s =
    if leb n (length s.incoming)
    then (ok (take n s.incoming), record s { incoming = drop n s.incoming })
    else (err 104, s)

abbrev pub socket : Connection Socket
socket = record {
  read_data = λ s n. (ok (take n s.incoming), record s { incoming = drop n s.incoming });
  read_data_exact = λ s n. whole n s;
  write_data = λ s bs. (ok (length bs), record s { outgoing = s.outgoing ++ bs });
  write_data_all = λ s bs. (ok tt, record s { outgoing = s.outgoing ++ bs });
}

abbrev pub pending : Socket → List ℕ
pending s = s.incoming

abbrev pub outgoing_bytes : Socket → List ℕ
outgoing_bytes s = s.outgoing

abbrev pub socket_of : List ℕ → Socket
socket_of bs = record { incoming = bs; outgoing = [] }

pub socket-IsStream : IsStream socket pending
socket-IsStream = record {
  read_front =
      λ s n bs s' h. ground (arith, h, length-take n s.incoming, take-append-drop n s.incoming);
  exact_front =
      λ s n bs s' h. ground (arith, h, length-take n s.incoming, take-append-drop n s.incoming);
}

pub socket-IsPrompt : IsPrompt socket pending
socket-IsPrompt = record {
  read_some = λ s n four long. (
    take n s.incoming,
    record s { incoming = drop n s.incoming },
    refl,
    omega (arith, length-take n s.incoming),
  );
  exact_all =
      λ s n long. (take n s.incoming, record s { incoming = drop n s.incoming }, ground arith);
}

take_all : (bs : List ℕ) → take (length bs) bs ≡ bs
take_all [] = refl
take_all (b ∷ bs) = ap (λ (t : List ℕ). b ∷ t) (take_all bs)

pub socket-IsWriter : IsWriter socket outgoing_bytes
socket-IsWriter = record {
  write_front = λ s bs n s' h. ground (arith, h, take_all bs);
  write_all = λ s bs s' h. ground arith;
  read_keeps = λ s n. refl;
  exact_keeps = λ s n. ground arith;
}

-- An index of vectors of one byte that grants every reservation.
pub record Index : Type 0 where
  pub room : ℕ
  pub labels : List ℕ

abbrev pub indexes : UsearchIndex Index
indexes = record {
  dimensions = λ _. 1;
  capacity = λ i. i.room;
  size = λ i. length i.labels;
  reserve = λ i n. ok (record i { room = n });
  add_raw = λ i row bits. ok (record i { labels = i.labels ++ row.label ∷ [] });
}

abbrev pub open_channel : ℕ → Bool
open_channel _ = true

pub indexes-IsReserving : IsReserving indexes
indexes-IsReserving = record { reserve_capacity = λ i n j h. ground arith }

pub indexes-IsReady : IsReady indexes open_channel
indexes-IsReady = record { grants = λ i n. (record i { room = n }, refl); opened = λ _. refl }

abbrev pub row_a : Row
row_a = record { label = 7; vec = 1 ∷ [] }

abbrev pub row_b : Row
row_b = record { label = 9; vec = 2 ∷ [] }

-- Two rows, the end mark, and a byte that is not read.
abbrev pub two_rows : Socket
two_rows = socket_of (
    7 ∷ 0 ∷ 0 ∷ 0 ∷ 0 ∷ 0 ∷ 0 ∷ 0 ∷ 1 ∷ 9 ∷ 0 ∷ 0 ∷ 0 ∷ 0 ∷ 0 ∷ 0 ∷ 0 ∷ 2 ∷ 0x37 ∷ 0x33 ∷ 0x33
    ∷ 0x31 ∷ [])

abbrev pub empty_index : Index
empty_index = record { room = 1; labels = [] }

abbrev pub received : Receiving Socket Index
received = record {
  stream = socket_of [];
  index = record { room = 2; labels = [] };
  current_capacity = 2;
  received_rows = 2;
  sent = row_a ∷ row_b ∷ [];
}
