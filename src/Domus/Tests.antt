-- ===== src/Domus/Tests.antt =====
-- The pairing of a door sensor, and one that is cancelled.
use openqiara.Prelude.{ℕ, ◌≡◌, ◌≢◌, Bool, true, some, List, [], ◌∷◌, ◌++◌, replicate, refl}
use openqiara.Domus.VendorKeys.{VendorKey, load_vendor_keys}
use openqiara.Domus.Pairing.{
  Input, done, frame, Pairing, paired, waiting, start_frame, request_frame, confirm_frame, pair,
}
use openqiara.Domus.PairingEnds.{IsEnd, pair-IsEnd, pair_ends}
use mathlib.Core.List.{Memᴰ}

abbrev vendor_key : List ℕ
vendor_key = 1 ∷ 2 ∷ 3 ∷ 4 ∷ 5 ∷ 6 ∷ replicate 26 9

abbrev keys : List VendorKey
keys = record { name = b'q' ∷ []; key = vendor_key } ∷ []

-- The decoder stands for base64 here.
loaded :
    load_vendor_keys
      (λ b64. some vendor_key)
      ((b'#' ∷ []) ∷ (b' ' ∷ b'q' ∷ b':' ∷ b' ' ∷ b'x' ∷ []) ∷ [])
    ≡ keys
unfolding load_vendor_keys
loaded = refl

abbrev uid : List ℕ
uid = 8 ∷ 7 ∷ 6 ∷ 5 ∷ 4 ∷ 3 ∷ 2 ∷ 1 ∷ []

abbrev beacon : List ℕ
beacon = (0x97 ∷ 1 ∷ 2 ∷ 3 ∷ 4 ∷ 5 ∷ 6 ∷ []) ++ uid ++ (b'D' ∷ b'W' ∷ []) ++ replicate 14 0

abbrev inputs : List Input
inputs =
    frame (0x1f ∷ [])
    ∷ frame beacon
    ∷ frame (0x1f ∷ [])
    ∷ frame ((0x1e ∷ uid) ++ (7 ∷ []))
    ∷ frame (0x16 ∷ [])
    ∷ done
    ∷ []

sends : List (List ℕ) → List ℕ → Bool
sends sent f = true

handshake :
    pair sends keys (b'D' ∷ []) 7 inputs
    ≡ paired
        (record {
          device_uid = uid;
          model = b'D' ∷ b'W' ∷ [];
          vendor_name = b'q' ∷ [];
          address = 7;
        })
        (confirm_frame uid ∷ request_frame uid vendor_key ∷ start_frame 7 ∷ [])
unfolding pair sends
handshake = refl

pair-IsEnd_example : IsEnd keys (b'D' ∷ []) 7 inputs (pair sends keys (b'D' ∷ []) 7 inputs)
pair-IsEnd_example = pair-IsEnd sends keys (b'D' ∷ []) 7 inputs

abbrev idle : Pairing
idle = record {
  res = record { device_uid = replicate 8 0; model = []; vendor_name = []; address = 0 };
  matched = true;
  sent = [];
}

pair_ends_example : pair sends keys (b'P' ∷ []) 7 (frame beacon ∷ done ∷ []) ≢ waiting idle
pair_ends_example =
    pair_ends sends keys (b'P' ∷ []) 7 (frame beacon ∷ done ∷ []) idle (Memᴰ.tail (Memᴰ.head refl))
