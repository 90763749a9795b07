-- ===== src/LinkedList/Unlink.antt =====
-- Unlinking an inner node, as the last branch of ListRemoveById does.
use mathlib.Core.Path.{subst}
use theynix.Base.{
  ℕ, ◌≡◌, ◌≢◌, ◌∙◌, sym, true, false, List, [], ◌∷◌, ◌++◌, arith, update, IsDistinct,
  IsDistinct-append_one, append_assoc, has, has-append, has-last_of, last_of,
}
use theynix.LinkedList.{free_node, Memory, NodeList}
use theynix.LinkedList.Holds.{IsLinked}
use theynix.LinkedList.Chain.{
  Back-append, Back-frame, Back-relink, Forward-first, Forward-live, Forward-live_first, first_or,
  first_or-append_one, has-first_or, Back, Back-split, Forward, Forward-append, Forward-frame,
  Forward-relink, Forward-split,
}

-- The memory when an inner node is unlinked and freed.
abbrev pub unlinked : Memory → (a : ℕ) → Memory
unlinked m a =
    let before = m.prev a in
    let after = m.next a in
    free_node a (record m { next = update m.next before after; prev = update m.prev after before })

pub IsDistinct-split :
    (xs ys : List ℕ)
    → IsDistinct (xs ++ ys)
    → IsDistinct xs × IsDistinct ys × ((c : ℕ) → has c xs ≡ true → has c ys ≡ false)
IsDistinct-split [] ys d = (tt, d, λ c h. absurd (ground arith))
IsDistinct-split (x ∷ xs) ys d =
    let (e, f, apart) = IsDistinct-split xs ys d.1 in
    let out = has-append x xs ys in
    ((ground (arith, d.0), e), f, λ c h. ground (arith, d.0, apart c))

pub IsDistinct-append :
    (xs ys : List ℕ)
    → IsDistinct xs
    → IsDistinct ys
    → ((c : ℕ) → has c xs ≡ true → has c ys ≡ false)
    → IsDistinct (xs ++ ys)
IsDistinct-append [] ys d e apart = e
IsDistinct-append (x ∷ xs) ys d e apart = (
  ground (arith, d.0, apart x, has-append x xs ys),
  IsDistinct-append xs ys d.1 e (λ c h. apart c (ground arith)),
)

-- The links around an inner node `a`, after `b`.
module _ (m : Memory) (l : NodeList) (b a : ℕ) (bs ns : List ℕ)
    (k : IsLinked m l ((b ∷ bs) ++ (a ∷ ns))) where
  inner_Forward :
      Forward m a l.head (b ∷ bs) × (m.live a ≡ true) × Forward m l.sentinel (m.next a) ns
  inner_Forward =
      let (f, g) = Forward-split m l.sentinel l.head (b ∷ bs) (a ∷ ns) k.forward in (f, g.1, g.2)

  inner_Back : Back m b bs × (m.prev a ≡ last_of b bs) × Back m a (ns ++ (l.sentinel ∷ []))
  inner_Back =
      let whole : Back m b (bs ++ (a ∷ (ns ++ (l.sentinel ∷ [])))) =
        subst (λ zs. Back m b zs) (append_assoc bs (a ∷ ns) (l.sentinel ∷ [])) k.back in
      let (f, g) = Back-split m b bs (a ∷ (ns ++ (l.sentinel ∷ []))) whole in (f, g.0, g.1)

  unlinked-Forward : Forward (unlinked m a) l.sentinel l.head ((b ∷ bs) ++ ns)
  unlinked-Forward =
      let (f, live, g) = inner_Forward in
      let (h, before, i) = inner_Back in
      let (d, e, apart) = IsDistinct-split (b ∷ bs) (a ∷ ns) k.distinct in
      let m' = unlinked m a in
      let m1 = record m { next = update m.next (last_of b bs) (m.next a) } in
      let f1 = Forward-relink m a (m.next a) l.head b bs d f in
      Forward-append m' (m.next a) l.sentinel l.head (b ∷ bs) ns
        (Forward-frame m1 m' (m.next a) l.head (b ∷ bs)
          (λ c mem. (ground arith, ground (arith, apart c))) f1)
        (Forward-frame m m' l.sentinel (m.next a) ns
          (λ c mem. (ground (arith, apart (last_of b bs), has-last_of b bs), ground (arith, e.0)))
          g)

  unlinked-Back : Back (unlinked m a) b ((bs ++ ns) ++ (l.sentinel ∷ []))
  unlinked-Back =
      let m' = unlinked m a in
      let zs = ns ++ (l.sentinel ∷ []) in
      let (f, live, g) = inner_Forward in
      let (h, before, i) = inner_Back in
      let (d, e, apart) = IsDistinct-split (b ∷ bs) (a ∷ ns) k.distinct in
      let out = has-append l.sentinel (b ∷ bs) (a ∷ ns) in
      let o = k.end_out in
      let after : m.next a ≡ first_or 0 zs =
        Forward-first m l.sentinel (m.next a) ns g ∙ sym (first_or-append_one 0 l.sentinel ns) in
      let m1 = record m { prev = update m.prev (first_or 0 zs) (last_of b bs) } in
      let d_zs = IsDistinct-append_one l.sentinel ns e.1 (ground arith) in
      let tail =
        Back-frame m1 m' (last_of b bs) zs (λ c mem. ground arith)
          (Back-relink m 0 a (last_of b bs) zs d_zs i) in
      let front =
        Back-frame m m' b bs
          (λ c mem. ground (
            arith,
            apart c,
            has-first_or l.sentinel c ns,
            Forward-first m l.sentinel (m.next a) ns g,
          ))
          h in
      subst (λ ys. Back m' b ys) (sym (append_assoc bs ns (l.sentinel ∷ [])))
        (Back-append m' b bs zs front tail)

  -- The list without the inner node `a`.
  pub unlinked-IsLinked : IsLinked (unlinked m a) l ((b ∷ bs) ++ ns)
  unlinked-IsLinked =
      let (d, e, apart) = IsDistinct-split (b ∷ bs) (a ∷ ns) k.distinct in
      let out = has-append l.sentinel (b ∷ bs) (a ∷ ns) in
      let out' = has-append l.sentinel (b ∷ bs) ns in
      let o = k.end_out in
      record {
        forward = unlinked-Forward;
        back = unlinked-Back;
        end_live = ground (arith, k.end_live);
        end_null = k.end_null;
        end_out = ground arith;
        distinct = IsDistinct-append (b ∷ bs) ns d e.1 (λ c mem. ground (arith, apart c));
        null = ground (arith, k.null);
      }

  -- The nodes that are dereferenced are nodes.
  pub unlinked-live :
      (m.live a ≡ true) × (m.live (m.prev a) ≡ true) × (m.live (m.next a) ≡ true) × (a ≢ l.head)
  unlinked-live =
      let (f, live, g) = inner_Forward in
      let (h, before, i) = inner_Back in
      let (d, e, apart) = IsDistinct-split (b ∷ bs) (a ∷ ns) k.distinct in
      let mem = has-last_of b bs in
      (
        live,
        ground (arith, Forward-live m a l.head (last_of b bs) (b ∷ bs) f),
        Forward-live_first m l.sentinel (m.next a) ns k.end_live g,
        ground (arith, f.0, apart b),
      )
