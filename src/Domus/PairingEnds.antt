-- ===== src/Domus/PairingEnds.antt =====
-- The ends of a pairing (internal/domus/pairing.go).
use openqiara.Prelude.{
  ℕ, ◌≡◌, ◌≢◌, ◌⊎◌, inl, inr, Bool, List, [], ◌∷◌, if◌then◌else◌, refl, Bool-cases,
}
use openqiara.Domus.VendorKeys.{VendorKey}
use openqiara.Domus.Pairing.{
  send_failed, no_address, start_failed, Input, done, frame, Pairing, Outcome, waiting, failed,
  paired, Reaction, again, reply, refused, accepted, start_frame, op_stop_pairing, react, stop,
  pair_loop, pair,
}
use mathlib.Core.List.{Memᴰ}
use openqiara.Domus.PairingLaws.{IsMatched, IsAssigned, IsPairing, IsGood, react-IsGood}

module _ (keys : List VendorKey) (model : List ℕ) (addr : ℕ) (all : List Input) where
  -- The ways a pairing can end.
  abbrev pub IsEnd : Outcome → Type 0
  IsEnd (waiting p) = IsPairing keys model addr all p
  IsEnd (failed cause sent) =
      ((cause ≡ start_failed) × (sent ≡ []))
      ⊎ ((cause ≡ no_address) ⊎ ((rest : List (List ℕ)) × (sent ≡ (op_stop_pairing ∷ []) ∷ rest)))
  IsEnd (paired res sent) =
      IsMatched keys model addr all res sent
      × IsAssigned keys model addr all res.address
      × (res.address ≢ 0)

  module _ (sends : List (List ℕ) → List ℕ → Bool) where
    -- A round, by what the frame makes of it.
    round-IsEnd :
        (p : Pairing) (is : List Input) (r : Reaction)
        → ((q : Pairing)
            → IsPairing keys model addr all q
            → IsEnd (pair_loop sends keys model q is))
        → IsGood keys model addr all p r
        → IsEnd (elim r [
          | again p' ↦ pair_loop sends keys model p' is
          | refused ↦ failed no_address p.sent
          | accepted ↦ paired p.res p.sent
          | reply r p' ↦
              let next = pair_loop sends keys model (record p' { sent = r ∷ p.sent }) is in
              if sends p.sent r then next else stop send_failed p.sent
        ])
    round-IsEnd p is (again q) next g = next q g
    round-IsEnd p is refused next g = inr (inl refl)
    round-IsEnd p is accepted next g = g
    round-IsEnd p is (reply r q) next g = elim (Bool-cases (sends p.sent r)) [
      | inl e ↦ rw e (next (record q { sent = r ∷ p.sent }) g)
      | inr e ↦ rw e (inr (inr (p.sent, refl)))
    ]

    pair_loop-IsEnd :
        (p : Pairing) (is : List Input)
        → ((i : Input) → Memᴰ i is → Memᴰ i all)
        → IsPairing keys model addr all p
        → IsEnd (pair_loop sends keys model p is)
    unfolding pair_loop
    pair_loop-IsEnd p [] m h = h
    pair_loop-IsEnd p (done ∷ is) m h = inr (inr (p.sent, refl))
    pair_loop-IsEnd p (frame f ∷ is) m h =
        round-IsEnd p is (react keys model f p)
          (λ q g. pair_loop-IsEnd q is (λ i n. m i (Memᴰ.tail n)) g)
          (react-IsGood keys model addr all f p (m (frame f) (Memᴰ.head refl)) h)

-- Whatever comes and whatever can be sent: a pairing that is done took one beacon that came, of the wanted
-- model, whose vendor's key is known, and sent the start, the request with that key and confirmations to
-- that sensor, and nothing else; its address is not 0 and came in a result. One that is given up has taken
-- the radio out of pairing mode, unless nothing was sent or the radio had stopped.
pub pair-IsEnd :
    (sends : List (List ℕ) → List ℕ → Bool) (keys : List VendorKey) (model : List ℕ) (addr : ℕ)
    (is : List Input)
    → IsEnd keys model addr is (pair sends keys model addr is)
unfolding pair
pair-IsEnd sends keys model addr is = elim (Bool-cases (sends [] (start_frame addr))) [
  | inl e ↦
      rw (e, pair)
        (pair_loop-IsEnd keys model addr is sends _ is (λ i n. n) (inl (refl, refl, refl)))
  | inr e ↦ rw (e, pair) (inl (refl, refl))
]

module _ (sends : List (List ℕ) → List ℕ → Bool) (keys : List VendorKey) (model : List ℕ) where
  round_ends :
      (p q : Pairing) (is : List Input) (r : Reaction)
      → ((p' : Pairing) → pair_loop sends keys model p' is ≢ waiting q)
      → (elim r [
        | again p' ↦ pair_loop sends keys model p' is
        | refused ↦ failed no_address p.sent
        | accepted ↦ paired p.res p.sent
        | reply r p' ↦
            let next = pair_loop sends keys model (record p' { sent = r ∷ p.sent }) is in
            if sends p.sent r then next else stop send_failed p.sent
      ])
        ≢ waiting q
  round_ends p q is (again p') next = next p'
  round_ends p q is refused next = λ h. cc
  round_ends p q is accepted next = λ h. cc
  round_ends p q is (reply r p') next = elim (Bool-cases (sends p.sent r)) [
    | inl e ↦ rw e (next (record p' { sent = r ∷ p.sent }))
    | inr e ↦ rw e (λ h. cc)
  ]

  pair_loop_ends :
      (p q : Pairing) (is : List Input) → Memᴰ done is → pair_loop sends keys model p is ≢ waiting q
  unfolding pair_loop
  pair_loop_ends p q [] m = elim m [ ]
  pair_loop_ends p q (done ∷ is) m = λ h. cc
  pair_loop_ends p q (frame f ∷ is) (Memᴰ.head e) = absurd cc
  pair_loop_ends p q (frame f ∷ is) (Memᴰ.tail m) =
      round_ends p q is (react keys model f p) (λ p'. pair_loop_ends p' q is m)

-- A pairing that is cancelled at some time ends, whatever comes before.
pub pair_ends :
    (sends : List (List ℕ) → List ℕ → Bool) (keys : List VendorKey) (model : List ℕ) (addr : ℕ)
    (is : List Input) (q : Pairing)
    → Memᴰ done is
    → pair sends keys model addr is ≢ waiting q
unfolding pair
pair_ends sends keys model addr is q m = elim (Bool-cases (sends [] (start_frame addr))) [
  | inl e ↦ rw (e, pair) (pair_loop_ends sends keys model _ q is m)
  | inr e ↦ rw (e, pair) (λ h. cc)
]
