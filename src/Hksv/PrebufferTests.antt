-- ===== src/Hksv/PrebufferTests.antt =====
-- The prebuffer at concrete inputs: three groups of pictures, with a sound between two.
use openqiara.Prelude.{ℕ, ◌≡◌, true, false, List, [], ◌∷◌, refl}
use openqiara.Hksv.Prebuffer.{Sample, add, run, new_prebuffer}
use openqiara.Hksv.PrebufferLife.{IsKept, run-IsKept}

abbrev video : ℕ → ℕ → Sample
video pts header = record { is_video = true; pts = pts; bytes = header ∷ 0x80 ∷ [] }

abbrev sound : Sample
sound = record { is_video = false; pts = 10; bytes = 0x67 ∷ [] }

abbrev stream : List Sample
stream = video 0 0x41 ∷ video 10 0x67 ∷ video 10 0x65 ∷ sound ∷ video 50 0x65 ∷ video 90 0x41 ∷ []

-- What comes before the first parameter set is left out.
begins : (run (new_prebuffer 60) stream).starts ≡ 0 ∷ 3 ∷ []
unfolding run
begins = refl

-- The first group goes when the second covers what is kept.
moves_on : (add (video 120 0x65) (run (new_prebuffer 60) stream)).starts ≡ 0 ∷ 2 ∷ []
unfolding run
moves_on = refl

run-IsKept_example : IsKept 60 stream (run (new_prebuffer 60) stream)
run-IsKept_example = run-IsKept 60 stream
