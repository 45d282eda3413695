-- ===== src/Stream/Lines.antt =====
-- `LineLogBuffer`: the lines of a stream, whatever the chunks in which it comes.
use dockkeep.Prelude.{
  String, Char, ◌≡◌, refl, sym, ap, ap₂, ◌∙◌, true, false, ◌&&◌, List, [], ◌∷◌, ◌++◌, map,
  append-nil, append_assoc, map-append, ◌<>◌, ◌=c=◌, is_empty, has_char, split_on, push,
  if◌then◌else◌, Bool-cases, inl, inr, nil-append, cons-append, split_on-plain, split_on-cons,
}
use dockkeep.Stream.Tail.{Bytes, joined}

-- The incremental UTF-8 decoder of `codecs`: it keeps the bytes of a character that is not complete.
pub record Decoder : Type 1 where
  pub State : Type 0
  pub initial : State
  pub decode : State → Bytes → State × String
  pub finish : State → State × String

-- Decoding goes on where it stopped: chunks decode to the pieces of the whole.
pub record IsIncremental (d : Decoder) : Type 0 where
  pub nothing : (s : d.State) → d.decode s [] ≡ (s, "")
  pub in_pieces :
      (s : d.State) (a b : Bytes)
      → d.decode s (a ++ b)
        ≡ (let (s', x) = d.decode s a in let (s'', y) = d.decode s' b in (s'', x <> y))

-- `s.rstrip("\r")`
abbrev keep_char : Char → Char → String → String
keep_char d c rest = if is_empty rest && c =c= d then "" else String.◌∷◌ c rest

unfoldable pub rstrip : Char → String → String
rstrip d String.[] = ""
rstrip d (String.◌∷◌ c s) = keep_char d c (rstrip d s)

abbrev pub line_of : String → String
line_of line = rstrip "\r" line

-- `lines.pop()`: the lines before the last, and the last.
abbrev add_line : String → List String × String → List String × String
add_line w (ws, v) = (w ∷ ws, v)

unfoldable pub pop_last : List String → List String × String
pop_last [] = ([], "")
pop_last (w ∷ []) = ([], w)
pop_last (w ∷ v ∷ ws) = add_line w (pop_last (v ∷ ws))

module _ (d : Decoder) where
  pub record LineLogBuffer : Type 0 where
    pub decoder : d.State
    pub pending : String
    -- the lines given to the callback, the first one first
    pub emitted : List String

  unfoldable pub new_buffer : LineLogBuffer
  new_buffer = record { decoder = d.initial; pending = ""; emitted = [] }

  -- The text of a chunk.
  unfoldable pub feed_text : LineLogBuffer → String → LineLogBuffer
  feed_text b text =
      let pending = b.pending <> text in
      let (lines, last) = pop_last (split_on "\n" pending) in
      if is_empty text
      then b
      else if has_char "\n" pending
      then record b { pending = last; emitted = b.emitted ++ map line_of lines }
      else record b { pending = pending }

  unfoldable pub feed_chunk : LineLogBuffer → Bytes → LineLogBuffer
  unfolding feed_text
  feed_chunk b chunk =
      let (state, text) = d.decode b.decoder chunk in feed_text (record b { decoder = state }) text

  unfoldable pub feed_chunks : LineLogBuffer → List Bytes → LineLogBuffer
  unfolding feed_chunk
  feed_chunks b [] = b
  feed_chunks b (c ∷ cs) = feed_chunks (feed_chunk b c) cs

  abbrev pub last_line : String → List String
  last_line pending = if is_empty pending then [] else line_of pending ∷ []

  -- What `flush` does with the text that is pending in the end.
  unfoldable pub flush : LineLogBuffer → LineLogBuffer
  flush b =
      let (state, text) = d.finish b.decoder in
      record { decoder = state; pending = ""; emitted = b.emitted ++ last_line (b.pending <> text) }

  -- The lines of a whole text: each line that ends, and what stands behind the last newline with what
  -- the decoder adds in the end.
  abbrev pub lines_of : String → String → List String
  lines_of text ending =
      let (lines, last) = pop_last (split_on "\n" text) in
      map line_of lines ++ last_line (last <> ending)

abbrev before : String → List String
before s = (pop_last (split_on "\n" s)).0

abbrev behind : String → String
behind s = (pop_last (split_on "\n" s)).1

push_pieces :
    (d c : Char) (w b : String) (ws whole : List String)
    → (c =c= d) ≡ false
    → whole ≡ (pop_last (w ∷ ws)).0 ++ split_on d ((pop_last (w ∷ ws)).1 <> b)
    → push c whole
      ≡ (pop_last (push c (w ∷ ws))).0 ++ split_on d ((pop_last (push c (w ∷ ws))).1 <> b)
unfolding split_on pop_last
push_pieces d c w b [] whole e h = rw (cons-append, e) (ap (push c) h)
push_pieces d c w b (v ∷ ws) whole e h = ap (push c) h

split_on-pieces :
    (d : Char) (a b : String)
    → split_on d (a <> b)
      ≡ (pop_last (split_on d a)).0 ++ split_on d ((pop_last (split_on d a)).1 <> b)
unfolding split_on pop_last
split_on-pieces d String.[] b = refl
split_on-pieces d (String.◌∷◌ c a) b =
    let (w, ws, e) = split_on-cons d a in
    let h = rw e at (split_on-pieces d a b) in
    elim (Bool-cases (c =c= d)) [
      | inl same ↦ rw (cons-append, same, e) (ap (◌∷◌ "") h)
      | inr other ↦ rw (cons-append, other, e) (push_pieces d c w b ws _ other h)
    ]

pop_last-append :
    (xs : List String) (w : String) (ws : List String)
    → pop_last (xs ++ w ∷ ws) ≡ (xs ++ (pop_last (w ∷ ws)).0, (pop_last (w ∷ ws)).1)
unfolding pop_last
pop_last-append [] w ws = refl
pop_last-append (x ∷ []) w ws = refl
pop_last-append (x ∷ y ∷ xs) w ws = ap (add_line x) (pop_last-append (y ∷ xs) w ws)

pop_last-append_cons :
    (xs ys : List String)
    → ((w : String) × (ws : List String) × (ys ≡ w ∷ ws))
    → pop_last (xs ++ ys) ≡ (xs ++ (pop_last ys).0, (pop_last ys).1)
pop_last-append_cons xs ys (w, ws, e) = rw e (pop_last-append xs w ws)

-- More text behind a text: only the line that has not ended goes on.
pop_last-pieces :
    (a b : String)
    → pop_last (split_on "\n" (a <> b))
      ≡ (before a ++ before (behind a <> b), behind (behind a <> b))
pop_last-pieces a b =
    ap pop_last (split_on-pieces "\n" a b)
    ∙ pop_last-append_cons (before a) _ (split_on-cons "\n" (behind a <> b))

plain_pieces :
    (xs : List String) (a : String)
    → has_char "\n" a ≡ false
    → ◌≡◌ {A = List String × String} (xs ++ before a, behind a) (xs, a)
unfolding pop_last
plain_pieces xs a h =
    ap {B = List String × String} (λ ws. (xs ++ (pop_last ws).0, (pop_last ws).1))
      (split_on-plain "\n" a h)
    ∙ (ap {B = List String × String} (λ ys. (ys, a)) (append-nil xs))

append_nil : (a : String) → a <> "" ≡ a
append_nil String.[] = nil-append ""
append_nil (String.◌∷◌ c a) = cons-append c a "" ∙ ap (String.◌∷◌ c) (append_nil a)

empty_text : (a : String) → is_empty a ≡ true → a ≡ ""
empty_text String.[] h = refl
empty_text (String.◌∷◌ c a) h = cc

module _ (d : Decoder) (law : IsIncremental d) where
  pub record Reads (whole : Bytes) (text : String) (b : LineLogBuffer d) : Type 0 where
    pub decoded : d.decode d.initial whole ≡ (b.decoder, text)
    pub ended : b.emitted ≡ map line_of (before text)
    pub open_line : b.pending ≡ behind text

  feed_text-emitted :
      (b : LineLogBuffer d) (text more : String)
      → b.emitted ≡ map line_of (before text)
      → b.pending ≡ behind text
      → ((feed_text d b more).emitted ≡ map line_of (before (text <> more)))
        × ((feed_text d b more).pending ≡ behind (text <> more))
        × ((feed_text d b more).decoder ≡ b.decoder)
  unfolding feed_text
  feed_text-emitted b text more h p = elim (Bool-cases (is_empty more)) [
    | inl e ↦ rw (empty_text more e, append_nil text) (h, p, refl)
    | inr e ↦ elim (Bool-cases (has_char "\n" (behind text <> more))) [
      | inl f ↦
          rw (p, e, f)
            (
              ap (λ xs. xs ++ map line_of (before (behind text <> more))) h
                  ∙ sym (map-append line_of (before text) (before (behind text <> more)))
                  ∙ ap (λ q. map line_of q.0) (sym (pop_last-pieces text more)),
              ap (λ q. q.1) (sym (pop_last-pieces text more)),
              refl,
            )
      | inr f ↦
          let q : pop_last (split_on "\n" (text <> more)) ≡ (before text, behind text <> more) =
            pop_last-pieces text more ∙ plain_pieces (before text) (behind text <> more) f in
          rw (p, e, f) (h ∙ ap (λ q. map line_of q.0) (sym q), ap (λ q. q.1) (sym q), refl)
    ]
  ]

  feed_chunk-Reads :
      (whole chunk : Bytes) (text : String) (b : LineLogBuffer d)
      → Reads whole text b
      → Reads (whole ++ chunk) (text <> (d.decode b.decoder chunk).1) (feed_chunk d b chunk)
  unfolding feed_chunk
  feed_chunk-Reads whole chunk text b r =
      let (state, more) = d.decode b.decoder chunk in
      let (emitted, pending, same) =
        feed_text-emitted (record b { decoder = state }) text more r.ended r.open_line in
      record {
        decoded =
            law.in_pieces d.initial whole chunk
            ∙ ap {B = d.State × String}
                (λ q. ((d.decode q.0 chunk).0, q.1 <> (d.decode q.0 chunk).1)) r.decoded
            ∙ ap {B = d.State × String} (λ t. (t, text <> more)) (sym same);
        ended = emitted;
        open_line = pending;
      }

  feed_chunks-Reads :
      (whole : Bytes) (text : String) (b : LineLogBuffer d) (cs : List Bytes)
      → Reads whole text b
      → (all : String) × Reads (whole ++ joined cs) all (feed_chunks d b cs)
  unfolding feed_chunks joined
  feed_chunks-Reads whole text b [] r = (text, rw append-nil r)
  feed_chunks-Reads whole text b (c ∷ cs) r =
      rw (← append_assoc whole c (joined cs))
        (feed_chunks-Reads (whole ++ c) _ (feed_chunk d b c) cs (feed_chunk-Reads whole c text b r))

  -- However a stream is cut into chunks, feeding them and flushing gives the callback exactly the
  -- lines of the whole text, with a last one that does not end.
  pub flush-lines_of :
      (cs : List Bytes)
      → (flush d (feed_chunks d (new_buffer d) cs)).emitted
        ≡ (let (state, text) = d.decode d.initial (joined cs) in lines_of d text (d.finish state).1)
  unfolding flush new_buffer split_on pop_last
  flush-lines_of cs =
      let (text, r) =
        feed_chunks-Reads [] "" (new_buffer d) cs
          (record { decoded = law.nothing d.initial; ended = refl; open_line = refl }) in
      let ending = (d.finish (feed_chunks d (new_buffer d) cs).decoder).1 in
      ap₂ (λ xs p. xs ++ last_line d (p <> ending)) r.ended r.open_line
      ∙ ap (λ q. lines_of d q.1 (d.finish q.0).1) (sym r.decoded)
