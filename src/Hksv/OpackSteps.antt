-- ===== src/Hksv/OpackSteps.antt =====
-- The loops of the data stream decoder, a round at a time (internal/hksv/opack.go).
use openqiara.Prelude.{
  ℕ, suc, ◌≡◌, Bool, true, false, some, List, [], ◌∷◌, ◌++◌, leb, length, if◌then◌else◌, refl, ap,
  ◌∙◌,
}
use openqiara.Hksv.OpackValue.{
  Value, null, bool, text, array, dict, Values, nil, cons, Fields, end, put,
}
use openqiara.Hksv.Opack.{
  open_array, close_array, open_dict, close_dict, tag_of, Decoder, Result, array_loop, dict_loop,
  array_of, dict_of, read, value,
}
use openqiara.Hksv.OpackNumbers.{tag_of-elements, tag_of-entries}
use openqiara.Hksv.OpackShape.{
  IsGoing, loop_end-close, loop_end-going, less-more, close_array-close, close_dict-close, more_of,
  close_of,
}
use mathlib.Core.List.{append_assoc}

pub array_loop-last :
    (read_value : Decoder → Result Value) (b : Bool) (lf : ℕ) (rest : List ℕ) (tracked : List Value)
    → array_loop read_value
        (suc lf)
        (more_of b 0)
        (record { b = close_of b ++ rest; tracked = tracked })
      ≡ some (nil, record { b = rest; tracked = tracked })
unfolding array_loop
array_loop-last rv b lf rest tracked = rw (loop_end-close b rest, array_loop) refl

pub dict_loop-last :
    (read_value : Decoder → Result Value) (b : Bool) (lf : ℕ) (rest : List ℕ) (m : Fields)
    (tracked : List Value)
    → dict_loop read_value
        (suc lf)
        (more_of b 0)
        m
        (record { b = close_of b ++ rest; tracked = tracked })
      ≡ some (m, record { b = rest; tracked = tracked })
unfolding dict_loop
dict_loop-last rv b lf rest m tracked = rw (loop_end-close b rest, dict_loop) refl

-- A round of a loop.
pub array_loop-step :
    (read_value : Decoder → Result Value) (b : Bool) (n lf : ℕ) (x y rest : List ℕ) (v : Value)
    (vs : Values) (t₀ t₁ t₂ : List Value)
    → IsGoing x
    → read_value (record { b = x ++ y; tracked = t₀ }) ≡ some (v, record { b = y; tracked = t₁ })
    → array_loop read_value lf (more_of b n) (record { b = y; tracked = t₁ })
      ≡ some (vs, record { b = rest; tracked = t₂ })
    → array_loop read_value (suc lf) (more_of b (suc n)) (record { b = x ++ y; tracked = t₀ })
      ≡ some (cons v vs, record { b = rest; tracked = t₂ })
unfolding array_loop
array_loop-step rv b n lf x y rest v vs t₀ t₁ t₂ g h k =
    rw (loop_end-going b n x y g, array_loop) (rw h (rw (less-more b n) (rw k refl)))

pub dict_loop-step :
    (read_value : Decoder → Result Value) (b : Bool) (n lf : ℕ) (x y z : List ℕ) (k : List ℕ)
    (v : Value) (m : Fields) (t₀ t₁ t₂ : List Value)
    → IsGoing x
    → read_value (record { b = x ++ (y ++ z); tracked = t₀ })
      ≡ some (text k, record { b = y ++ z; tracked = t₁ })
    → read_value (record { b = y ++ z; tracked = t₁ }) ≡ some (v, record { b = z; tracked = t₂ })
    → dict_loop read_value
        (suc lf)
        (more_of b (suc n))
        m
        (record { b = x ++ (y ++ z); tracked = t₀ })
      ≡ dict_loop read_value lf (more_of b n) (put k v m) (record { b = z; tracked = t₂ })
unfolding dict_loop
dict_loop-step rv b n lf x y z k v m t₀ t₁ t₂ g h i =
    rw (loop_end-going b n x (y ++ z) g, dict_loop) (rw h (rw i (rw (less-more b n) refl)))

module _ (widen : ℕ → ℕ) (fuel : ℕ) (rest : List ℕ) (tracked : List Value) where
  pub null_read :
      value widen (suc fuel) (record { b = 4 ∷ rest; tracked = tracked })
      ≡ some (null, record { b = rest; tracked = tracked })
  unfolding value tag_of read
  null_read = refl

  pub bool_read :
      (b : Bool)
      → value widen (suc fuel) (record { b = (if b then 1 else 2) ∷ rest; tracked = tracked })
        ≡ some (bool b, record { b = rest; tracked = tracked ++ (bool b ∷ []) })
  unfolding value tag_of read
  bool_read true = refl
  bool_read false = refl

  pub array_read :
      (n : ℕ) (x : List ℕ) (vs : Values) (tracked' : List Value)
      → array_loop
          (value widen fuel)
          (suc (length ((x ++ close_array n) ++ rest)))
          (more_of (leb n 12) n)
          (record { b = x ++ (close_of (leb n 12) ++ rest); tracked = tracked })
        ≡ some (vs, record { b = rest; tracked = tracked' })
      → value widen
          (suc fuel)
          (record { b = (open_array n ++ (x ++ close_array n)) ++ rest; tracked = tracked })
        ≡ some (array vs, record { b = rest; tracked = tracked' })
  unfolding value read more_of
  array_read n x vs tracked' h =
      ap
        (λ tag.
          read widen (value widen fuel) tag
            (record { b = (x ++ close_array n) ++ rest; tracked = tracked }))
        (tag_of-elements n)
      ∙ ap array_of (
          ap
            (λ bs.
              array_loop (value widen fuel) (suc (length ((x ++ close_array n) ++ rest)))
                (more_of (leb n 12) n) (record { b = bs; tracked = tracked }))
            (append_assoc x (close_array n) rest ∙ ap (λ c. x ++ (c ++ rest)) (close_array-close n))
          ∙ h)

  pub dict_read :
      (n : ℕ) (x : List ℕ) (vs : Fields) (tracked' : List Value)
      → dict_loop
          (value widen fuel)
          (suc (length ((x ++ close_dict n) ++ rest)))
          (more_of (leb n 14) n)
          end
          (record { b = x ++ (close_of (leb n 14) ++ rest); tracked = tracked })
        ≡ some (vs, record { b = rest; tracked = tracked' })
      → value widen
          (suc fuel)
          (record { b = (open_dict n ++ (x ++ close_dict n)) ++ rest; tracked = tracked })
        ≡ some (dict vs, record { b = rest; tracked = tracked' })
  unfolding value read more_of
  dict_read n x vs tracked' h =
      ap
        (λ tag.
          read widen (value widen fuel) tag
            (record { b = (x ++ close_dict n) ++ rest; tracked = tracked }))
        (tag_of-entries n)
      ∙ ap dict_of (
          ap
            (λ bs.
              dict_loop (value widen fuel) (suc (length ((x ++ close_dict n) ++ rest)))
                (more_of (leb n 14) n) end (record { b = bs; tracked = tracked }))
            (append_assoc x (close_dict n) rest ∙ ap (λ c. x ++ (c ++ rest)) (close_dict-close n))
          ∙ h)
