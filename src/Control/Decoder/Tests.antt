-- ===== src/Control/Decoder/Tests.antt =====
-- PolicyDecoder at a logger without entries, in thousandths.
use gearsonic_inference.Common.{
  ℕ, zero, suc, ◌≡◌, refl, subst, sym, Option, some, List, [], map, get_or, replicate,
}
use gearsonic_inference.Common.Float.{Machine, milli_machine, nil}
use gearsonic_inference.Control.Commands.{no_command}
use gearsonic_inference.Control.StateLogger.{StateLogger, new, get_latest, copy}
use gearsonic_inference.Control.WholeBody.{Entry, blank_entry}
use gearsonic_inference.Control.Decoder.{entry_at, command, step}
use gearsonic_inference.Control.Decoder.Observation.{
  Old, EntryIsFull, input_of, layout, decoder_step,
}

abbrev m : Machine
m = milli_machine

abbrev logger : StateLogger (Entry m.f64.Real)
logger = new (Entry m.f64.Real) (blank_entry m) 100

abbrev zero_token : List m.f32.Real
zero_token = replicate 64 (nil m.f32)

-- What an earlier step left: zeros.
abbrev old : Old m
old = (
  (λ _. replicate 3 (nil m.f32)),
  (λ _. replicate 29 (nil m.f32)),
  (λ _. replicate 29 (nil m.f32)),
  (λ _. replicate 29 (nil m.f32)),
  (λ _. replicate 3 (nil m.f32)),
)

get_or-replicate : {A : Type 0} (n : ℕ) (x : A) (i : ℕ) → get_or (replicate n x) i x ≡ x
get_or-replicate zero x i = refl
get_or-replicate (suc n) x zero = refl
get_or-replicate (suc n) x (suc i) = get_or-replicate n x i

blank_at : (i : ℕ) → entry_at m logger i ≡ blank_entry m
unfolding get_latest copy new
blank_at i = get_or-replicate 10 (blank_entry m) i

blank-EntryIsFull : EntryIsFull m (blank_entry m)
blank-EntryIsFull = (refl, refl, refl, refl)

logger-IsFull : (i : ℕ) → EntryIsFull m (entry_at m logger i)
logger-IsFull i = subst (EntryIsFull m) (sym (blank_at i)) blank-EntryIsFull

-- A network that answers 29 zeros, and one that fails.
abbrev answers : List m.f32.Real → Option (List m.f32.Real)
answers obs = some (replicate 29 (nil m.f32))

decoder_step_example :
    step m answers (input_of m zero_token old) [] zero_token logger (no_command m) ≡ (
      layout m zero_token logger,
      map m.widen (replicate 29 (nil m.f32)),
      some (command m (replicate 29 (nil m.f32)) (no_command m)),
    )
decoder_step_example =
    decoder_step m answers logger old zero_token zero_token [] (no_command m) refl refl
      (λ i. (refl, refl, refl, refl, refl)) logger-IsFull
