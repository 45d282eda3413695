-- ===== src/Stream/Tail.antt =====
-- `ByteTailBuffer`: the last bytes of a stream, in the chunks in which they came.
use dockkeep.Prelude.{
  ℕ, ◌+◌, ◌-◌, ◌<◌, ◌≡◌, refl, sym, ap, ap₂, ◌∙◌, Bool, true, false, ◌||◌, List, [], ◌∷◌, ◌++◌,
  append-nil, append_assoc, length, drop, length-append, ltb, leb, if◌then◌else◌, Bool-cases, inl,
  inr, arith, leb→le,
}
use dockkeep.Stream.Drop.{
  last_n, drop_nil, drop-append_short, drop-append_long, length-drop, last_n-append,
}

abbrev pub Bytes : Type 0
Bytes = List ℕ

pub record ByteTailBuffer : Type 0 where
  pub max_bytes : ℕ
  pub chunks : List Bytes
  pub size : ℕ
  pub truncated : Bool

unfoldable pub new_tail : ℕ → ByteTailBuffer
new_tail max_bytes = record { max_bytes = max_bytes; chunks = []; size = 0; truncated = false }

-- The loop of `feed`, from the oldest chunk on. A chunk that is cut short ends it, since the size is
-- then the limit.
unfoldable pub trim : ℕ → List Bytes → ℕ → Bool → ByteTailBuffer
trim max [] size truncated = record {
  max_bytes = max;
  chunks = [];
  size = size;
  truncated = truncated;
}
trim max (oldest ∷ chunks) size truncated =
    let overflow = size - max in
    let rest = trim max chunks (size - length oldest) true in
    if leb size max
    then record { max_bytes = max; chunks = oldest ∷ chunks; size = size; truncated = truncated }
    else if leb (length oldest) overflow
    then rest
    else record {
      max_bytes = max;
      chunks = drop overflow oldest ∷ chunks;
      size = size - overflow;
      truncated = true;
    }

unfoldable pub feed : ByteTailBuffer → Bytes → ByteTailBuffer
unfolding trim
feed t [] = t
feed t (b ∷ bs) =
    trim t.max_bytes (t.chunks ++ (b ∷ bs) ∷ []) (t.size + length (b ∷ bs)) t.truncated

unfoldable pub feed_all : ByteTailBuffer → List Bytes → ByteTailBuffer
unfolding feed
feed_all t [] = t
feed_all t (c ∷ cs) = feed_all (feed t c) cs

-- `b"".join(self._chunks)`
unfoldable pub joined : List Bytes → Bytes
joined [] = []
joined (c ∷ cs) = c ++ joined cs

joined-snoc : (cs : List Bytes) (c : Bytes) → joined (cs ++ c ∷ []) ≡ joined cs ++ c
unfolding joined
joined-snoc [] c = append-nil c
joined-snoc (d ∷ cs) c = ap (◌++◌ d) (joined-snoc cs c) ∙ sym (append_assoc d (joined cs) c)

-- What the buffer has to keep: it stands for the last bytes of `whole`.
pub record Reflects (max : ℕ) (whole : Bytes) (t : ByteTailBuffer) : Type 0 where
  pub same_max : t.max_bytes ≡ max
  pub content : joined t.chunks ≡ last_n max whole
  pub counted : t.size ≡ length (joined t.chunks)
  pub marked : t.truncated ≡ ltb max (length whole)

record Trimmed (max : ℕ) (bytes : Bytes) (truncated : Bool) (t : ByteTailBuffer) : Type 0 where
  same_max : t.max_bytes ≡ max
  content : joined t.chunks ≡ last_n max bytes
  counted : t.size ≡ length (joined t.chunks)
  marked : t.truncated ≡ (truncated || ltb max (length bytes))

trim-Trimmed :
    (max : ℕ) (cs : List Bytes) (size : ℕ) (truncated : Bool)
    → size ≡ length (joined cs)
    → Trimmed max (joined cs) truncated (trim max cs size truncated)
unfolding trim joined
trim-Trimmed max [] size truncated e = record {
  same_max = refl;
  content = sym (drop_nil _);
  counted = e;
  marked = ground arith;
}
trim-Trimmed max (c ∷ cs) size truncated e =
    let l = length-append c (joined cs) in
    elim (Bool-cases (leb size max)) [
      | inl fits ↦
          let small = leb→le size max fits in
          rw fits (record {
            same_max = refl;
            content = ap (λ k. drop k (c ++ joined cs)) {x = 0} (omega (arith, e, small));
            counted = e;
            marked = ground (arith, e);
          })
      | inr over ↦ elim (Bool-cases (leb (length c) (size - max))) [
        | inl whole ↦
            let r = trim-Trimmed max cs (size - length c) true (omega (arith, e, l)) in
            let big = leb→le (length c) (size - max) whole in
            rw (over, whole)
              (record {
                same_max = r.same_max;
                content =
                    r.content
                    ∙ ap (λ k. drop k (joined cs)) (omega (arith, e, l))
                    ∙ sym (
                        drop-append_long (length (c ++ joined cs) - max) c (joined cs)
                          (omega (arith, e, big)));
                counted = r.counted;
                marked = r.marked ∙ ground (arith, e, over);
              })
        | inr part ↦
            let short : size - max < length c = ground arith in
            rw (over, part)
              (record {
                same_max = refl;
                content =
                    sym (drop-append_short (size - max) c (joined cs) (omega arith))
                    ∙ ap (λ k. drop (k - max) (c ++ joined cs)) e;
                counted = omega (
                  arith,
                  e,
                  l,
                  length-append (drop (size - max) c) (joined cs),
                  length-drop (size - max) c,
                );
                marked = ground (arith, e, over);
              })
      ]
    ]

length-last_n : (n : ℕ) (xs : Bytes) → length (last_n n xs) ≡ length xs - (length xs - n)
length-last_n n xs = length-drop (length xs - n) xs

over_again :
    (max whole more : ℕ)
    → (ltb max whole || ltb max ((whole - (whole - max)) + more)) ≡ ltb max (whole + more)
over_again max whole more = ground arith

feed-Reflects :
    (max : ℕ) (whole : Bytes) (t : ByteTailBuffer) (c : Bytes)
    → Reflects max whole t
    → Reflects max (whole ++ c) (feed t c)
unfolding feed
feed-Reflects max whole t [] r = rw append-nil r
feed-Reflects max whole t (b ∷ bs) r =
    let c = b ∷ bs in
    let kept : joined (t.chunks ++ c ∷ []) ≡ last_n max whole ++ c =
      joined-snoc t.chunks c ∙ ap (λ xs. xs ++ c) r.content in
    let count : t.size + length c ≡ length (joined (t.chunks ++ c ∷ [])) =
      ap (λ n. n + length c) r.counted
      ∙ sym (length-append (joined t.chunks) c)
      ∙ ap length (sym (joined-snoc t.chunks c)) in
    let long : length (joined (t.chunks ++ c ∷ []))
        ≡ (length whole - (length whole - max)) + length c =
      ap length kept
      ∙ length-append (last_n max whole) c
      ∙ ap (λ n. n + length c) (length-last_n max whole) in
    let m = trim-Trimmed t.max_bytes (t.chunks ++ c ∷ []) (t.size + length c) t.truncated count in
    record {
      same_max = m.same_max ∙ r.same_max;
      content =
          m.content
          ∙ ap (λ k. last_n k (joined (t.chunks ++ c ∷ []))) r.same_max
          ∙ ap (last_n max) kept
          ∙ last_n-append max whole c;
      counted = m.counted;
      marked =
          m.marked
          ∙ ap₂ (λ a n. a || ltb t.max_bytes n) r.marked long
          ∙ ap
              (λ k.
                ltb max (length whole) || ltb k ((length whole - (length whole - max)) + length c))
              r.same_max
          ∙ over_again max (length whole) (length c)
          ∙ ap (ltb max) (sym (length-append whole c));
    }

feeds-Reflects :
    (max : ℕ) (whole : Bytes) (t : ByteTailBuffer) (cs : List Bytes)
    → Reflects max whole t
    → Reflects max (whole ++ joined cs) (feed_all t cs)
unfolding feed_all joined
feeds-Reflects max whole t [] r = rw append-nil r
feeds-Reflects max whole t (c ∷ cs) r =
    rw (← append_assoc whole c (joined cs))
      (feeds-Reflects max (whole ++ c) (feed t c) cs (feed-Reflects max whole t c r))

-- However a stream is cut into chunks, the buffer holds its last `max` bytes, knows their number,
-- and is marked as truncated exactly if the stream is longer.
pub feed_all-Reflects :
    (max : ℕ) (cs : List Bytes) → Reflects max (joined cs) (feed_all (new_tail max) cs)
unfolding new_tail joined
feed_all-Reflects max cs =
    feeds-Reflects max [] (new_tail max) cs (record {
      same_max = refl;
      content = sym (drop_nil _);
      counted = refl;
      marked = ground arith;
    })
