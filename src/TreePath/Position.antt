-- ===== src/TreePath/Position.antt =====
-- What a path of crates/core/src/path.rs stands for: the ordinals from the root down to a post.
use notespace.Base.{
  ℕ, suc, ◌/◌, ◌%◌, ◌≤◌, ◌<◌, ◌≡◌, ◌≢◌, refl, ap, ◌∙◌, sym, arith, Text, List, [], ◌∷◌, ◌++◌, map,
  All, length, compare_list, append_assoc, append-nil,
}
use notespace.TreePath.{
  TreePath, separator, max_ordinal, max_depth, split, count, decode_segment, digit_char,
}
use notespace.TreePath.Segment.{
  segment, segment_lem, digit_char_above, decode-segment, compare-segment,
}
use notespace.TreePath.Split.{Free, count-Free, split-Free, split-append}

abbrev pub IsOrdinal : ℕ → Type 0
IsOrdinal n = n ≤ max_ordinal

-- The text of the position with first ordinal `n` and further ordinals `ns`.
unfoldable pub render : ℕ → List ℕ → Text
render n [] = segment n
render n (m ∷ ms) = segment n ++ separator ∷ render m ms

-- The path stands for the position, which is in the bounds of the program.
pub record Denotes (p : TreePath) (n : ℕ) (ns : List ℕ) : Type 0 where
  pub ordinals : All IsOrdinal (n ∷ ns)
  pub shallow : length ns < max_depth
  pub written : p.text ≡ render n ns

pub segment-Free : (n : ℕ) → Free separator (segment n)
segment-Free n = rw segment_lem (
  clear (n / 32 / 32 / 32 % 32) (omega arith),
  (
    clear (n / 32 / 32 % 32) (omega arith),
    (clear (n / 32 % 32) (omega arith), (clear (n % 32) (omega arith), tt)),
  ),
)
  where
    clear : (d : ℕ) → d < 32 → digit_char d ≢ separator
    clear d h e = omega (arith, digit_char_above d h)

pub render-snoc :
    (n : ℕ) (ns : List ℕ) (m : ℕ) → render n (ns ++ m ∷ []) ≡ render n ns ++ separator ∷ segment m
unfolding render
render-snoc n [] m = refl
render-snoc n (k ∷ ks) m = rw (render-snoc k ks m) (sym (append_assoc (segment n) _ _))

pub count-render : (n : ℕ) (ns : List ℕ) → count separator (render n ns) ≡ length ns
unfolding render count
count-render n [] =
    rw (← append-nil (segment n)) (count-Free separator (segment n) [] (segment-Free n))
count-render n (m ∷ ms) =
    count-Free separator (segment n) (separator ∷ render m ms) (segment-Free n)
    ∙ ap suc (count-render m ms)

pub segments-render :
    (n : ℕ) (ns : List ℕ)
    → All IsOrdinal (n ∷ ns)
    → map decode_segment (split separator (render n ns)) ≡ n ∷ ns
unfolding render
segments-render n [] (h, _) =
    rw (split-Free separator (segment n) (segment-Free n), decode-segment n h)
segments-render n (m ∷ ms) (h, hs) =
    rw (split-append separator (segment n) (render m ms) (segment-Free n), decode-segment n h)
      (ap (◌∷◌ n) (segments-render m ms hs))

-- Byte order is the order of the ordinals: a parent before its children, siblings by number.
pub compare-render :
    (n : ℕ) (ns : List ℕ) (m : ℕ) (ms : List ℕ)
    → All IsOrdinal (n ∷ ns)
    → All IsOrdinal (m ∷ ms)
    → compare_list (render n ns) (render m ms) ≡ compare_list (n ∷ ns) (m ∷ ms)
unfolding render
compare-render n [] m [] (h, _) (k, _) =
    rw (← append-nil (segment n), ← append-nil (segment m)) (compare-segment n m [] [] h k)
compare-render n [] m (m' ∷ ms) (h, _) (k, _) =
    rw (← append-nil (segment n)) (compare-segment n m [] (separator ∷ render m' ms) h k)
compare-render n (n' ∷ ns) m [] (h, _) (k, _) =
    rw (← append-nil (segment m)) (compare-segment n m (separator ∷ render n' ns) [] h k)
compare-render n (n' ∷ ns) m (m' ∷ ms) (h, hs) (k, ks) =
    rw (← compare-render n' ns m' ms hs ks)
      (compare-segment n m (separator ∷ render n' ns) (separator ∷ render m' ms) h k)

-- `ORDER BY path`, the byte order, is the preorder of the tree: paths compare as the lists of
-- their ordinals do, a post before its replies and siblings by ordinal.
pub compare-Denotes :
    {p q : TreePath} {n : ℕ} {ns : List ℕ} {m : ℕ} {ms : List ℕ}
    → Denotes p n ns
    → Denotes q m ms
    → compare_list p.text q.text ≡ compare_list (n ∷ ns) (m ∷ ms)
compare-Denotes {n} {ns} {m} {ms} d e =
    rw (d.written, e.written) (compare-render n ns m ms d.ordinals e.ordinals)
