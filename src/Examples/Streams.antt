-- ===== src/Examples/Streams.antt =====
-- Streams in chunks, one example for each buffer; the decoder reads a byte as a newline or a letter.
use Prim.Native.String
use dockkeep.Prelude.{
  ℕ, Char, ◌≡◌, refl, ap, [], ◌∷◌, ◌++◌, ◌<>◌, ◌=ℕ=◌, if◌then◌else◌, nil-append, cons-append, sym,
  ◌∙◌,
}
use dockkeep.Stream.Tail.{Bytes, joined, Reflects, feed_all, new_tail, feed_all-Reflects}
use dockkeep.Stream.Lines.{
  Decoder, IsIncremental, lines_of, flush, feed_chunks, new_buffer, flush-lines_of,
}

abbrev letter : ℕ → Char
letter n = if n =ℕ= 10 then "\n" else "x"

spell : Bytes → String.String
spell [] = ""
spell (b ∷ bs) = String.◌∷◌ (letter b) (spell bs)

spell-append : (a b : Bytes) → spell (a ++ b) ≡ spell a <> spell b
unfolding spell
spell-append [] b = sym (nil-append (spell b))
spell-append (x ∷ a) b =
    ap (String.◌∷◌ (letter x)) (spell-append a b) ∙ sym (cons-append (letter x) (spell a) (spell b))

abbrev letters : Decoder
letters = record {
  State = Unit {0};
  initial = tt;
  decode = λ s bytes. (tt, spell bytes);
  finish = λ s. (tt, "");
}

letters-IsIncremental : IsIncremental letters
unfolding spell
letters-IsIncremental = record {
  nothing = λ s. refl;
  in_pieces = λ s a b. ap {B = Unit {0} × String.String} (λ x. (tt, x)) (spell-append a b);
}

feed_all-Reflects_example :
    Reflects 3
      (joined ((1 ∷ 2 ∷ []) ∷ (3 ∷ 4 ∷ []) ∷ []))
      (feed_all (new_tail 3) ((1 ∷ 2 ∷ []) ∷ (3 ∷ 4 ∷ []) ∷ []))
feed_all-Reflects_example = feed_all-Reflects 3 ((1 ∷ 2 ∷ []) ∷ (3 ∷ 4 ∷ []) ∷ [])

flush-lines_of_example :
    (flush letters
      (feed_chunks letters (new_buffer letters) ((1 ∷ 10 ∷ []) ∷ (3 ∷ []) ∷ []))).emitted
    ≡ lines_of letters (spell (joined ((1 ∷ 10 ∷ []) ∷ (3 ∷ []) ∷ []))) ""
flush-lines_of_example =
    flush-lines_of letters letters-IsIncremental ((1 ∷ 10 ∷ []) ∷ (3 ∷ []) ∷ [])
