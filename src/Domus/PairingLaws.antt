-- ===== src/Domus/PairingLaws.antt =====
-- What a pairing has gone through (internal/domus/pairing.go): the beacon, the frames sent, the address.
use openqiara.Prelude.{
  ℕ, ◌%◌, ◌≤◌, ◌≡◌, ◌≢◌, ◌⊎◌, inl, inr, true, false, ◌&&◌, not, Option, none, some, List, [], ◌∷◌,
  ltb, leb, ◌==◌, length, take, drop, get_or, arith, refl, sym, Bool-cases, Option-cases,
}
use openqiara.Domus.VendorKeys.{VendorKey, match_prefix, find_key, match_beacon}
use openqiara.Domus.Pairing.{
  PairingResult, Input, frame, Pairing, Reaction, again, reply, refused, accepted, has_prefix,
  model_of, start_frame, request_frame, confirm_frame, op_beacon, op_pair_challenge, op_pair_result,
  op_stop_pairing, take_beacon, react,
}
use mathlib.Core.List.{Memᴰ}

some-injective : {k l : VendorKey} → (some k ≡ some l) → k ≡ l
some-injective h = cc

none-some : {k : VendorKey} → (◌≡◌ {A = Option VendorKey} none (some k)) → ⊥
none-some h = cc

module _ (keys : List VendorKey) (model : List ℕ) (addr : ℕ) (all : List Input) where
  -- The beacon that the pairing took: it came, and its vendor's key and its model are known.
  pub record IsBeacon (f : List ℕ) (key : VendorKey) : Type 0 where
    pub came : Memᴰ (frame f) all
    pub long : 31 ≤ length f
    pub opcode : get_or f 0 0 % 128 ≡ op_beacon
    pub known : Memᴰ key keys
    pub vendor : match_prefix (take 6 (drop 1 f)) (take 6 key.key) ≡ true
    pub wanted : has_prefix (model_of f) model ≡ true

  -- What was sent, newest first: the start, one request with the key, then confirmations only.
  abbrev pub IsHandshake : List ℕ → VendorKey → List (List ℕ) → Type 0
  IsHandshake uid key [] = ⊥
  IsHandshake uid key (r ∷ rs) =
      ((r ≡ request_frame uid key.key) × (rs ≡ start_frame addr ∷ []))
      ⊎ ((r ≡ confirm_frame uid) × IsHandshake uid key rs)

  pub record IsMatched (res : PairingResult) (sent : List (List ℕ)) : Type 0 where
    pub beacon : List ℕ
    pub key : VendorKey
    pub is_beacon : IsBeacon beacon key
    pub uid : res.device_uid ≡ take 8 (drop 7 beacon)
    pub name : res.vendor_name ≡ key.name
    pub model_is : res.model ≡ model_of beacon
    pub handshake : IsHandshake res.device_uid key sent

  -- The address came with a frame of the result.
  abbrev pub IsAssigned : ℕ → Type 0
  IsAssigned a =
      (f : List ℕ) × Memᴰ (frame f) all
      × (10 ≤ length f)
      × (get_or f 0 0 % 128 ≡ op_pair_result)
      × (a ≡ get_or f 9 0)

  abbrev pub IsPairing : Pairing → Type 0
  IsPairing p =
      ((p.matched ≡ false) × (p.res.address ≡ 0) × (p.sent ≡ start_frame addr ∷ []))
      ⊎ ((p.matched ≡ true)
          × IsMatched p.res p.sent
          × ((p.res.address ≡ 0) ⊎ IsAssigned p.res.address))

  abbrev pub IsGood : Pairing → Reaction → Type 0
  IsGood p (again q) = IsPairing q
  IsGood p (reply r q) = IsPairing (record q { sent = r ∷ p.sent })
  IsGood p refused = Unit
  IsGood p accepted = IsMatched p.res p.sent × IsAssigned p.res.address × (p.res.address ≢ 0)

  find_key-known :
      (prefix : List ℕ) (ks : List VendorKey) (key : VendorKey)
      → find_key prefix ks ≡ some key
      → Memᴰ key ks × (match_prefix prefix (take 6 key.key) ≡ true)
  unfolding find_key
  find_key-known prefix [] key h = absurd cc
  find_key-known prefix (k ∷ ks) key h = elim (Bool-cases (match_prefix prefix (take 6 k.key))) [
    | inl e ↦
        let same : k ≡ key = some-injective (rw (sym h, find_key, e) refl) in
        rw (sym same) (Memᴰ.head refl, e)
    | inr e ↦
        let (m, v) = find_key-known prefix ks key (rw (sym h, find_key, e) refl) in (Memᴰ.tail m, v)
  ]

  match_beacon-known :
      (f : List ℕ) (key : VendorKey)
      → match_beacon f keys ≡ some key
      → Memᴰ key keys × (match_prefix (take 6 (drop 1 f)) (take 6 key.key) ≡ true)
  unfolding match_beacon
  match_beacon-known f key h = elim (Bool-cases (ltb (length f) 7)) [
    | inl e ↦ absurd (none-some {k = key} (rw (sym h, match_beacon, e) refl))
    | inr e ↦ find_key-known (take 6 (drop 1 f)) keys key (rw (sym h, match_beacon, e) refl)
  ]

  unmatched :
      (p : Pairing)
      → p.matched ≡ false
      → IsPairing p
      → (p.res.address ≡ 0) × (p.sent ≡ start_frame addr ∷ [])
  unmatched p n (inl (m, a, s)) = (a, s)
  unmatched p n (inr (m, x, y)) = absurd cc

  matched :
      (p : Pairing)
      → p.matched ≡ true
      → IsPairing p
      → IsMatched p.res p.sent × ((p.res.address ≡ 0) ⊎ IsAssigned p.res.address)
  matched p n (inl (m, x, y)) = absurd cc
  matched p n (inr (m, x, y)) = (x, y)

  IsMatched-snoc :
      (p : Pairing)
      → IsMatched p.res p.sent
      → IsMatched p.res (confirm_frame p.res.device_uid ∷ p.sent)
  IsMatched-snoc p m = record {
    beacon = m.beacon;
    key = m.key;
    is_beacon = m.is_beacon;
    uid = m.uid;
    name = m.name;
    model_is = m.model_is;
    handshake = inr (refl, m.handshake);
  }

  IsMatched-address :
      (p : Pairing) (a : ℕ)
      → IsMatched p.res p.sent
      → IsMatched (record p.res { address = a }) p.sent
  IsMatched-address p a m = record {
    beacon = m.beacon;
    key = m.key;
    is_beacon = m.is_beacon;
    uid = m.uid;
    name = m.name;
    model_is = m.model_is;
    handshake = m.handshake;
  }

  -- The beacon is taken.
  beacon-IsPairing :
      (f : List ℕ) (key : VendorKey) (p : Pairing)
      → Memᴰ (frame f) all
      → 31 ≤ length f
      → get_or f 0 0 % 128 ≡ op_beacon
      → match_beacon f keys ≡ some key
      → has_prefix (model_of f) model ≡ true
      → (p.res.address ≡ 0) × (p.sent ≡ start_frame addr ∷ [])
      → IsPairing (record p {
        matched = true;
        res = record p.res {
          device_uid = take 8 (drop 7 f);
          model = model_of f;
          vendor_name = key.name;
        };
        sent = request_frame (take 8 (drop 7 f)) key.key ∷ p.sent;
      })
  beacon-IsPairing f key p m l o e w (a, s) =
      let (known, vendor) = match_beacon-known f key e in
      inr (
        refl,
        record {
          beacon = f;
          key = key;
          is_beacon = record {
            came = m;
            long = l;
            opcode = o;
            known = known;
            vendor = vendor;
            wanted = w;
          };
          uid = refl;
          name = refl;
          model_is = refl;
          handshake = inl (refl, s);
        },
        inl a,
      )

  confirm-IsPairing :
      (p : Pairing)
      → p.matched ≡ true
      → IsPairing p
      → IsPairing (record p { sent = confirm_frame p.res.device_uid ∷ p.sent })
  confirm-IsPairing p n h = let (m, a) = matched p n h in inr (n, IsMatched-snoc p m, a)

  result-IsPairing :
      (f : List ℕ) (p : Pairing)
      → Memᴰ (frame f) all
      → 10 ≤ length f
      → get_or f 0 0 % 128 ≡ op_pair_result
      → p.matched ≡ true
      → IsPairing p
      → IsPairing (record p { res = record p.res { address = get_or f 9 0 } })
  result-IsPairing f p c l o n h =
      let (m, a) = matched p n h in
      inr (n, IsMatched-address p (get_or f 9 0) m, inr (f, c, l, o, refl))

  accept-IsGood :
      (p : Pairing)
      → p.matched ≡ true
      → (p.res.address == 0) ≡ false
      → IsPairing p
      → IsGood p accepted
  accept-IsGood p n z h =
      let (m, a) = matched p n h in
      elim a [ inl e ↦ absurd (ground arith) | inr given ↦ (m, given, λ e. ground arith) ]

  take_beacon-IsGood :
      (f : List ℕ) (p : Pairing)
      → Memᴰ (frame f) all
      → 31 ≤ length f
      → get_or f 0 0 % 128 ≡ op_beacon
      → p.matched ≡ false
      → IsPairing p
      → IsGood p (take_beacon keys model f p)
  unfolding take_beacon
  take_beacon-IsGood f p m l o n h = elim (Option-cases (match_beacon f keys)) [
    | inl e ↦ rw (e, take_beacon) h
    | inr (key, e) ↦ elim (Bool-cases (has_prefix (model_of f) model)) [
      | inr w ↦ rw (e, take_beacon) (rw w h)
      | inl w ↦ rw (e, take_beacon) (rw w (beacon-IsPairing f key p m l o e w (unmatched p n h)))
    ]
  ]

  pub react-IsGood :
      (f : List ℕ) (p : Pairing)
      → Memᴰ (frame f) all
      → IsPairing p
      → IsGood p (react keys model f p)
  unfolding react
  react-IsGood [] p m h = h
  react-IsGood (b ∷ bs) p m h =
      elim (Bool-cases (b % 128 == op_beacon && not p.matched && leb 31 (length (b ∷ bs)))) [
        | inl e ↦
            rw e (take_beacon-IsGood (b ∷ bs) p m (ground arith) (ground arith) (ground arith) h)
        | inr e ↦ rw e (elim (Bool-cases (b % 128 == op_pair_challenge && p.matched)) [
          | inl e' ↦ rw e' (confirm-IsPairing p (ground arith) h)
          | inr e' ↦
              rw e'
                (elim (Bool-cases
                  (b % 128 == op_pair_result && p.matched && leb 10 (length (b ∷ bs)))) [
                    | inl e'' ↦ rw e'' (
                        result-IsPairing (b ∷ bs) p m (ground arith) (ground arith) (ground arith)
                          h)
                    | inr e'' ↦
                        rw e'' (elim (Bool-cases (b % 128 == op_stop_pairing && p.matched)) [
                          | inr x ↦ rw x h
                          | inl x ↦ rw x (elim (Bool-cases (p.res.address == 0)) [
                            | inl z ↦ rw z tt
                            | inr z ↦ rw z (accept-IsGood p (ground arith) z h)
                          ])
                        ])
                  ])
        ])
      ]
