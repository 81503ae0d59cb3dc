-- ===== src/Hksv/OpackNumbers.antt =====
-- The integers, lengths and tags of the data stream messages (internal/hksv/opack.go), read as they are written.
use openqiara.Prelude.{
  ℕ, suc, ◌+◌, ◌-◌, ◌*◌, ◌/◌, ◌%◌, ◌≤◌, ◌<◌, ◌≡◌, false, none, some, List, [], ◌∷◌, ◌++◌, ltb, leb,
  ◌==◌, length, if◌then◌else◌, le16, le32, le64, arith, refl, sym, ap, ◌∙◌, inl, inr, Bool-cases,
  length-append, take-length, drop-length,
}
use openqiara.Radio.Types.{ℤ, pos, negsuc}
use openqiara.Hksv.OpackValue.{Value, int, float, text, raw, IsInt64}
use openqiara.Hksv.Opack.{
  encode_int, encode_length, encode_bytes, Tag, one, integer, short_text, short_raw, long_text,
  long_raw, elements, entries, tag_of, Decoder, take_bytes, track, of_le, size_bytes, signed,
  length_prefixed, tracked_bytes, read, value,
}

of_le-le16 : (n : ℕ) → n < 65_536 → of_le (le16 n) ≡ n
unfolding of_le
of_le-le16 n l = omega arith

of_le-le32 : (n : ℕ) → n < 4_294_967_296 → of_le (le32 n) ≡ n
unfolding of_le
of_le-le32 n l = omega arith

of_le-le32_append :
    (n : ℕ) (bs : List ℕ) → n < 4_294_967_296 → of_le (le32 n ++ bs) ≡ n + 4_294_967_296 * of_le bs
unfolding of_le
of_le-le32_append n bs l = omega arith

pub of_le-le64 : (n : ℕ) → n < 18_446_744_073_709_551_616 → of_le (le64 n) ≡ n
unfolding of_le le64
of_le-le64 n l =
    of_le-le32_append (n % 4_294_967_296) (le32 (n / 4_294_967_296)) (omega arith)
    ∙ ap (λ k. n % 4_294_967_296 + 4_294_967_296 * k) (of_le-le32 (n / 4_294_967_296) (omega arith))
    ∙ omega arith

pub take_bytes-append :
    (v rest : List ℕ) (tracked : List Value)
    → take_bytes (length v) (record { b = v ++ rest; tracked = tracked })
      ≡ some (v, record { b = rest; tracked = tracked })
unfolding take_bytes
take_bytes-append v rest tracked = rw (take-length v rest, drop-length v rest, short v rest) refl
  where
    short : (v rest : List ℕ) → ltb (length (v ++ rest)) (length v) ≡ false
    short v rest = ground (arith, length-append v rest)

tag_of-small : (n : ℕ) → n ≤ 39 → tag_of (8 + n) ≡ one (int (pos n))
unfolding tag_of
tag_of-small n l = ground arith

tag_of-text : (n : ℕ) → n ≤ 32 → tag_of (0x40 + n) ≡ short_text n
unfolding tag_of
tag_of-text n l = ground arith

tag_of-long_text : (k : ℕ) → k ≤ 2 → tag_of (0x61 + k) ≡ long_text k
unfolding tag_of
tag_of-long_text k l = ground arith

tag_of-long_raw : (k : ℕ) → k ≤ 2 → tag_of (0x91 + k) ≡ long_raw k
unfolding tag_of
tag_of-long_raw k l = ground arith

tag_of-raw : (n : ℕ) → n ≤ 32 → tag_of (0x70 + n) ≡ short_raw n
unfolding tag_of
tag_of-raw n l = ground arith

pub tag_of-elements :
    (n : ℕ)
    → tag_of (if leb n 12 then 0xd0 + n else 0xdf) ≡ elements (if leb n 12 then some n else none)
unfolding tag_of
tag_of-elements n = ground arith

pub tag_of-entries :
    (n : ℕ)
    → tag_of (if leb n 14 then 0xe0 + n else 0xef) ≡ entries (if leb n 14 then some n else none)
unfolding tag_of
tag_of-entries n = ground arith

-- A run of bytes of a given length, and one after its length.
fixed_read :
    (make : List ℕ → Value) (k : ℕ) (l rest : List ℕ) (tracked : List Value)
    → length l ≡ k
    → tracked_bytes make (take_bytes k (record { b = l ++ rest; tracked = tracked }))
      ≡ track (make l) (record { b = rest; tracked = tracked })
fixed_read make k l rest tracked e =
    ap (λ k. tracked_bytes make (take_bytes k (record { b = l ++ rest; tracked = tracked })))
      (sym e)
    ∙ ap (tracked_bytes make) (take_bytes-append l rest tracked)

length_prefixed-append :
    (size : ℕ) (l v rest : List ℕ) (tracked : List Value)
    → length l ≡ size_bytes size
    → of_le l ≡ length v
    → length_prefixed size (record { b = l ++ (v ++ rest); tracked = tracked })
      ≡ some (v, record { b = rest; tracked = tracked })
unfolding length_prefixed
length_prefixed-append size l v rest tracked e n =
    rw (fixed, length_prefixed)
      (rw n (rw (short v rest, take-length v rest, drop-length v rest) refl))
  where
    fixed :
        take_bytes (size_bytes size) (record { b = l ++ (v ++ rest); tracked = tracked })
        ≡ some (l, record { b = v ++ rest; tracked = tracked })
    fixed =
        ap (λ k. take_bytes k (record { b = l ++ (v ++ rest); tracked = tracked })) (sym e)
        ∙ take_bytes-append l (v ++ rest) tracked

    short : (v rest : List ℕ) → ltb (length (v ++ rest)) (length v) ≡ false
    short v rest = ground (arith, length-append v rest)

module _ (widen : ℕ → ℕ) (fuel : ℕ) (rest : List ℕ) (tracked : List Value) where
  integer_read :
      (size : ℕ) (l : List ℕ) (n : ℤ)
      → length l ≡ size_bytes size
      → signed size (of_le l) ≡ n
      → read widen (value widen fuel) (integer size) (record { b = l ++ rest; tracked = tracked })
        ≡ track (int n) (record { b = rest; tracked = tracked })
  unfolding read
  integer_read size l n e h =
      fixed_read (λ l. int (signed size (of_le l))) (size_bytes size) l rest tracked e
      ∙ ap (λ n. track (int n) (record { b = rest; tracked = tracked })) h

  pub value-encode_int :
      (n : ℤ)
      → IsInt64 n
      → value widen (suc fuel) (record { b = encode_int n ++ rest; tracked = tracked })
        ≡ track (int n) (record { b = rest; tracked = tracked })
  unfolding value encode_int tag_of
  value-encode_int (pos n) l = elim (Bool-cases (leb n 39)) [
    | inl e ↦ rw e (
        ap (λ t. read widen (value widen fuel) t (record { b = rest; tracked = tracked }))
          (tag_of-small n (ground arith)))
    | inr e ↦ rw e (elim (Bool-cases (leb n 127)) [
      | inl e ↦ rw e (integer_read 0 (n ∷ []) (pos n) refl (unfold of_le in ground arith))
      | inr e ↦ rw e (elim (Bool-cases (leb n 32_767)) [
        | inl e ↦ rw e (
            integer_read 1 (le16 n) (pos n) refl
              (ap (signed 1) (of_le-le16 n (ground arith)) ∙ ground arith))
        | inr e ↦ rw e (elim (Bool-cases (leb n 2_147_483_647)) [
          | inl e ↦ rw e (
              integer_read 2 (le32 n) (pos n) refl
                (ap (signed 2) (of_le-le32 n (ground arith)) ∙ ground arith))
          | inr e ↦ rw e (
              integer_read 3 (le64 n) (pos n) (unfold le64 in refl)
                (ap (signed 3) (of_le-le64 n (omega arith)) ∙ ground arith))
        ])
      ])
    ])
  ]
  value-encode_int (negsuc n) l = elim (Bool-cases (n == 0)) [
    | inl e ↦
        rw e
          (ap (λ k. track (int (negsuc k)) (record { b = rest; tracked = tracked })) (ground arith))
    | inr e ↦ rw e (elim (Bool-cases (leb n 127)) [
      | inl e ↦
          rw e (integer_read 0 ((255 - n) ∷ []) (negsuc n) refl (unfold of_le in ground arith))
      | inr e ↦ rw e (elim (Bool-cases (leb n 32_767)) [
        | inl e ↦ rw e (
            integer_read 1 (le16 (65_535 - n)) (negsuc n) refl
              (ap (signed 1) (of_le-le16 (65_535 - n) (omega arith)) ∙ ground arith))
        | inr e ↦ rw e (elim (Bool-cases (leb n 2_147_483_647)) [
          | inl e ↦ rw e (
              integer_read 2 (le32 (4_294_967_295 - n)) (negsuc n) refl
                (ap (signed 2) (of_le-le32 (4_294_967_295 - n) (omega arith)) ∙ ground arith))
          | inr e ↦ rw e (
              integer_read 3 (le64 (18_446_744_073_709_551_615 - n)) (negsuc n)
                (unfold le64 in refl)
                (ap (signed 3) (of_le-le64 (18_446_744_073_709_551_615 - n) (omega arith))
                  ∙ ground arith))
        ])
      ])
    ])
  ]

  -- A string or data, whose tags `short` and `long` are.
  value-encode_bytes :
      (make : List ℕ → Value) (short long : ℕ → Tag) (s t : ℕ) (v : List ℕ)
      → ((n : ℕ) → n ≤ 32 → tag_of (s + n) ≡ short n)
      → ((k : ℕ) → k ≤ 2 → tag_of (t + k) ≡ long k)
      → ((n : ℕ) (d : Decoder)
          → read widen (value widen fuel) (short n) d ≡ tracked_bytes make (take_bytes n d))
      → ((k : ℕ) (d : Decoder)
          → read widen (value widen fuel) (long k) d ≡ tracked_bytes make (length_prefixed k d))
      → length v < 4_294_967_296
      → value widen (suc fuel) (record { b = encode_bytes v s t ++ rest; tracked = tracked })
        ≡ track (make v) (record { b = rest; tracked = tracked })
  unfolding value encode_bytes encode_length
  value-encode_bytes make short long s t v hs ht rs rl small =
      elim (Bool-cases (leb (length v) 32)) [
        | inl e ↦ rw e (
            ap
              (λ tag.
                read widen (value widen fuel) tag (record { b = v ++ rest; tracked = tracked }))
              (hs (length v) (ground arith))
            ∙ rs (length v) (record { b = v ++ rest; tracked = tracked })
            ∙ ap (tracked_bytes make) (take_bytes-append v rest tracked))
        | inr e ↦ rw e (elim (Bool-cases (leb (length v) 255)) [
          | inl e ↦ rw e (
              ap
                (λ k.
                  read widen (value widen fuel) (tag_of k)
                    (record { b = length v ∷ (v ++ rest); tracked = tracked }))
                plain
              ∙ after 0 (length v ∷ []) (omega arith) refl (unfold of_le in omega arith))
          | inr e ↦ rw e (elim (Bool-cases (leb (length v) 65_535)) [
            | inl e ↦ rw e (
                after 1 (le16 (length v)) (omega arith) refl (of_le-le16 (length v) (ground arith)))
            | inr e ↦
                rw e (after 2 (le32 (length v)) (omega arith) refl (of_le-le32 (length v) small))
          ])
        ])
      ]
    where
      plain : t ≡ t + 0
      plain = omega arith

      after :
          (k : ℕ) (l : List ℕ)
          → k ≤ 2
          → length l ≡ size_bytes k
          → of_le l ≡ length v
          → read widen
              (value widen fuel)
              (tag_of (t + k))
              (record { b = l ++ (v ++ rest); tracked = tracked })
            ≡ track (make v) (record { b = rest; tracked = tracked })
      after k l b e n =
          ap
            (λ tag.
              read widen (value widen fuel) tag
                (record { b = l ++ (v ++ rest); tracked = tracked }))
            (ht k b)
          ∙ rl k (record { b = l ++ (v ++ rest); tracked = tracked })
          ∙ ap (tracked_bytes make) (length_prefixed-append k l v rest tracked e n)

  pub value-encode_text :
      (cs : List ℕ)
      → length cs < 4_294_967_296
      → value widen (suc fuel) (record { b = encode_bytes cs 0x40 0x61 ++ rest; tracked = tracked })
        ≡ track (text cs) (record { b = rest; tracked = tracked })
  unfolding read
  value-encode_text cs small =
      value-encode_bytes text short_text long_text 0x40 0x61 cs tag_of-text tag_of-long_text
        (λ n d. refl) (λ k d. refl) small

  pub value-encode_raw :
      (bs : List ℕ)
      → length bs < 4_294_967_296
      → value widen (suc fuel) (record { b = encode_bytes bs 0x70 0x91 ++ rest; tracked = tracked })
        ≡ track (raw bs) (record { b = rest; tracked = tracked })
  unfolding read
  value-encode_raw bs small =
      value-encode_bytes raw short_raw long_raw 0x70 0x91 bs tag_of-raw tag_of-long_raw
        (λ n d. refl) (λ k d. refl) small

  pub value-encode_float :
      (bits : ℕ)
      → bits < 18_446_744_073_709_551_616
      → value widen (suc fuel) (record { b = (0x36 ∷ le64 bits) ++ rest; tracked = tracked })
        ≡ track (float bits) (record { b = rest; tracked = tracked })
  unfolding value read tag_of
  value-encode_float bits small =
      fixed_read (λ l. float (of_le l)) 8 (le64 bits) rest tracked (unfold le64 in refl)
      ∙ ap (λ n. track (float n) (record { b = rest; tracked = tracked })) (of_le-le64 bits small)
