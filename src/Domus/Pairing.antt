-- ===== src/Domus/Pairing.antt =====
-- The pairing handshake, internal/domus/pairing.go. What the loop waits for is a list of inputs, and
-- `sends` says of each frame whether it goes out.
use openqiara.Prelude.{
  ℕ, ◌%◌, Bool, true, false, ◌&&◌, not, none, some, List, [], ◌∷◌, ◌++◌, leb, ◌==◌, length, take,
  drop, get_or, replicate, if◌then◌else◌,
}
use openqiara.Domus.VendorKeys.{VendorKey, match_beacon}

abbrev pub op_start_pairing : ℕ
op_start_pairing = 0x15

abbrev pub op_stop_pairing : ℕ
op_stop_pairing = 0x16

abbrev pub op_beacon : ℕ
op_beacon = 0x17

abbrev pub op_pair_request : ℕ
op_pair_request = 0x1a

abbrev pub op_pair_challenge : ℕ
op_pair_challenge = 0x1f

abbrev pub op_pair_confirm : ℕ
op_pair_confirm = 0x1c

abbrev pub op_pair_result : ℕ
op_pair_result = 0x1e

pub record PairingResult : Type 0 where
  pub device_uid : List ℕ
  pub model : List ℕ
  pub vendor_name : List ℕ
  pub address : ℕ

pub data Error : Type 0 where
  start_failed : Error
  cancelled : Error
  send_failed : Error
  no_address : Error

pub data Input : Type 0 where
  done : Input
  frame : List ℕ → Input

-- The loop's variables, and the frames sent, newest first.
pub record Pairing : Type 0 where
  pub res : PairingResult
  pub matched : Bool
  pub sent : List (List ℕ)

-- `waiting`: the inputs are over and the loop is not.
pub data Outcome : Type 0 where
  waiting : Pairing → Outcome
  failed : Error → List (List ℕ) → Outcome
  paired : PairingResult → List (List ℕ) → Outcome

unfoldable pub trim_null : List ℕ → List ℕ
trim_null [] = []
trim_null (c ∷ cs) = if c == 0 then [] else c ∷ trim_null cs

unfoldable pub has_prefix : List ℕ → List ℕ → Bool
has_prefix cs [] = true
has_prefix [] (d ∷ ds) = false
has_prefix (c ∷ cs) (d ∷ ds) = c == d && has_prefix cs ds

abbrev pub start_frame : ℕ → List ℕ
start_frame addr = (op_start_pairing ∷ addr ∷ 0 ∷ 0 ∷ 0 ∷ addr ∷ []) ++ replicate 12 0

-- 57 bytes.
abbrev pub request_frame : List ℕ → List ℕ → List ℕ
request_frame uid key = (op_pair_request ∷ uid) ++ key ++ replicate 16 0

abbrev pub confirm_frame : List ℕ → List ℕ
confirm_frame uid = op_pair_confirm ∷ uid

-- What a frame makes of the loop: the next round, after a reply or without one, or its end.
pub data Reaction : Type 0 where
  again : Pairing → Reaction
  reply : List ℕ → Pairing → Reaction
  refused : Reaction
  accepted : Reaction

abbrev pub model_of : List ℕ → List ℕ
model_of f = trim_null (take 16 (drop 15 f))

unfoldable pub take_beacon : List VendorKey → List ℕ → List ℕ → Pairing → Reaction
unfolding match_beacon trim_null has_prefix
take_beacon keys model f p = elim (match_beacon f keys) [
  | none ↦ again p
  | some key ↦
      if not (has_prefix (model_of f) model)
      then again p
      else reply (request_frame (take 8 (drop 7 f)) key.key) (record p {
        matched = true;
        res = record p.res {
          device_uid = take 8 (drop 7 f);
          model = model_of f;
          vendor_name = key.name;
        };
      })
]

-- The switch of the loop.
unfoldable pub react : List VendorKey → List ℕ → List ℕ → Pairing → Reaction
unfolding take_beacon
react keys model [] p = again p
react keys model (b ∷ bs) p =
    let op = b % 128 in
    if op == op_beacon && not p.matched && leb 31 (length (b ∷ bs))
    then take_beacon keys model (b ∷ bs) p
    else if op == op_pair_challenge && p.matched
    then reply (confirm_frame p.res.device_uid) p
    else if op == op_pair_result && p.matched && leb 10 (length (b ∷ bs))
    then again (record p { res = record p.res { address = get_or (b ∷ bs) 9 0 } })
    else if op == op_stop_pairing && p.matched
    then (if p.res.address == 0 then refused else accepted)
    else again p

-- `stop`; that the frame goes out is not looked at.
abbrev pub stop : Error → List (List ℕ) → Outcome
stop cause sent = failed cause ((op_stop_pairing ∷ []) ∷ sent)

module _ (sends : List (List ℕ) → List ℕ → Bool) (keys : List VendorKey) (model : List ℕ) where
  unfoldable pub pair_loop : Pairing → List Input → Outcome
  unfolding react
  pair_loop p [] = waiting p
  pair_loop p (done ∷ is) = stop cancelled p.sent
  pair_loop p (frame f ∷ is) = elim (react keys model f p) [
    | again p' ↦ pair_loop p' is
    | refused ↦ failed no_address p.sent
    | accepted ↦ paired p.res p.sent
    | reply r p' ↦
        let next = pair_loop (record p' { sent = r ∷ p.sent }) is in
        if sends p.sent r then next else stop send_failed p.sent
  ]

  unfoldable pub pair : ℕ → List Input → Outcome
  unfolding pair_loop
  pair addr is =
      let next =
        pair_loop
          (record {
            res = record { device_uid = replicate 8 0; model = []; vendor_name = []; address = 0 };
            matched = false;
            sent = start_frame addr ∷ [];
          })
          is in
      if sends [] (start_frame addr) then next else failed start_failed []
