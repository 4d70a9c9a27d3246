-- ===== src/BpTree/Insert/Below.antt =====
-- An insert below one of the subtrees of a node.
use wavedb.Base.{
  ℕ, suc, ◌≡◌, refl, sym, ap, ◌∙◌, arith, List, [], ◌∷◌, ◌++◌, append_assoc, append-nil, All,
  All-imp, All-append, true, false, Option, none, some, Bool-cases, inl, inr,
}
use wavedb.Ids.LocalId.{LocalId}
use wavedb.BpTree.Fault.{Result}
use wavedb.BpTree.Key.{NodeKey, IsLawful}
use wavedb.BpTree.Node.{NodeBody}
use wavedb.BpTree.Search.{BpTree, child_and_index, binary_search}
use wavedb.BpTree.Insert.{apply}
use wavedb.BpTree.Routing.{bump, child_and_index-below, child_and_index-right}
use wavedb.BpTree.Shape.{
  gather-append, Tree, root_id, entries_of, gather, keys, ids, Holds, Under, Over, Within, Chain,
  Ordered, lt_le_trans,
}
use wavedb.BpTree.Order.{keys-Within, Chain-Within}
use wavedb.BpTree.Insert.Ids.{count, count-append, Holds-frame, All-Holds-frame}
use wavedb.BpTree.Insert.Order.{
  insert_sorted, insert_sorted-front, insert_sorted-back, list_of, Chain-pending,
}
use wavedb.BpTree.Insert.Chain.{Grown, Chained, enter, chain_keys, chain_ids, Distinct}

module _ {K : Type 0} {o : NodeKey K} (law : IsLawful o) (t : BpTree) (mint : ℕ → LocalId)
    (load : LocalId → Result (NodeBody K)) (x : K) where
  open law use {lt_irrefl, lt_trans, lt_total}

  joined :
      {A B : Type 0} (f : A → List B) (u : A) (es ds : List (K × A))
      → f u ++ gather K f (es ++ ds) ≡ (f u ++ gather K f es) ++ gather K f ds
  joined f u es ds = ap (λ r. f u ++ r) (gather-append K f es ds) ∙ sym (append_assoc (f u) _ _)

  enter_first :
      (h : ℕ) (pend : Option (K × Tree K h)) (es : List (K × Tree K h))
      → entries_of K h (list_of pend ++ es) ≡ enter o t mint load x h 0 pend (entries_of K h es)
  enter_first h none es = refl
  enter_first h (some e) es = refl

  enter_next :
      (h i : ℕ) (pend : Option (K × Tree K h)) (e : K × LocalId) (es : List (K × LocalId))
      → enter o t mint load x h (suc i) pend (e ∷ es) ≡ e ∷ enter o t mint load x h i pend es
  enter_next h i none e es = refl
  enter_next h i (some r) e es = refl

  -- An insert into one subtree, as a hypothesis.
  abbrev pub Grows : ℕ → Type 0
  Grows h =
      (u : Tree K h) (min max : Option K)
      → Ordered o h min max u
      → Holds K load h u
      → Distinct o t mint load x (ids K h u)
      → Within o min max x
      → Grown o t mint load x h u min max

  Distinct-part :
      (qs rs : List LocalId)
      → Distinct o t mint load x (qs ++ rs)
      → Distinct o t mint load x qs × Distinct o t mint load x rs
  Distinct-part qs rs d = (
    (λ p. (
      omega (arith, (d p).0, count-append p qs rs),
      λ n m. (d p).1 n (omega (arith, m, count-append p qs rs)),
    )),
    (λ p. (
      omega (arith, (d p).0, count-append p qs rs),
      λ n m. (d p).1 n (omega (arith, m, count-append p qs rs)),
    )),
  )

  -- The subtree at the end of a node.
  last-Chained :
      (h : ℕ) (u : Tree K h) (min max : Option K)
      → Grown o t mint load x h u min max
      → Chained o t mint load x h u [] min max
  last-Chained h u min max g = record {
    changes = g.changes;
    used = g.used;
    child = root_id K h u;
    index = 0;
    pend = g.pend;
    first = g.left;
    rest = list_of g.pend;
    used_up = g.used_up;
    at = unfold child_and_index binary_search in refl;
    root = g.root;
    entries = ap (entries_of K h) (sym (append-nil (list_of g.pend))) ∙ enter_first h g.pend [];
    run = g.run;
    holds_first = g.holds_left;
    holds_rest = g.holds_pend;
    ordered = g.ordered;
    all_keys = g.all_keys ∙ ap (insert_sorted o x) (sym (append-nil (keys K h u)));
    all_ids = λ p. omega (arith, g.all_ids p, count-append p (ids K h u) []);
    kept = λ p n. g.kept p (omega (arith, n, count-append p (ids K h u) []));
  }

  -- The subtree before a separator that is above the key.
  low-Chained :
      (h : ℕ) (u : Tree K h) (k : K) (v : Tree K h) (es : List (K × Tree K h)) (min max : Option K)
      → Over o k min
      → Under o k max
      → Chain o (Ordered o h) (some k) max v es
      → All (λ e. Holds K load h e.1) ((k, v) ∷ es)
      → Distinct o t mint load x (chain_ids o t mint load x h u ((k, v) ∷ es))
      → o.lt x k ≡ true
      → Grown o t mint load x h u min (some k)
      → Chained o t mint load x h u ((k, v) ∷ es) min max
  low-Chained h u k v es min max over under cs hs d low g = record {
    changes = g.changes;
    used = g.used;
    child = root_id K h u;
    index = 0;
    pend = g.pend;
    first = g.left;
    rest = list_of g.pend ++ (k, v) ∷ es;
    used_up = g.used_up;
    at = child_and_index-below law (root_id K h u) (root_id K h v) k x (entries_of K h es) low;
    root = g.root;
    entries = enter_first h g.pend ((k, v) ∷ es);
    run = g.run;
    holds_first = g.holds_left;
    holds_rest = All-append _ (list_of g.pend) ((k, v) ∷ es) g.holds_pend (
        All-Holds-frame load (apply g.changes load) h ((k, v) ∷ es)
          (λ p n.
            g.kept p
              (omega
                (arith, n, (d p).0, count-append p (ids K h u) (gather K (ids K h) ((k, v) ∷ es))))
              ((d p).1 g.used
                (omega (arith, n, count-append p (ids K h u) (gather K (ids K h) ((k, v) ∷ es))))))
          hs);
    ordered = Chain-pending law (Ordered o h) min max k g.left v g.pend es g.ordered over under cs;
    all_keys =
        joined (keys K h) g.left (list_of g.pend) ((k, v) ∷ es)
        ∙ ap (λ r. r ++ gather K (keys K h) ((k, v) ∷ es)) g.all_keys
        ∙ sym (
            insert_sorted-front law x (keys K h u) _ (
              All-imp (λ l w. lt_le_trans law x k l low w.0) (chain_keys o t mint load x h v es)
                (Chain-Within law (Ordered o h) (keys K h) (keys-Within law h) (some k) max v es
                  cs)));
    all_ids = λ p. omega (
      arith,
      ap (count p) (joined (ids K h) g.left (list_of g.pend) ((k, v) ∷ es)),
      count-append p (ids K h g.left ++ gather K (ids K h) (list_of g.pend))
          (gather K (ids K h) ((k, v) ∷ es)),
      count-append p (ids K h u) (gather K (ids K h) ((k, v) ∷ es)),
      g.all_ids p,
    );
    kept = λ p n.
        g.kept p (omega (arith, n, count-append p (ids K h u) (gather K (ids K h) ((k, v) ∷ es))));
  }

  -- The subtrees behind a separator that is not above the key.
  high-Chained :
      (h : ℕ) (u : Tree K h) (k : K) (v : Tree K h) (es : List (K × Tree K h)) (min max : Option K)
      → Ordered o h min (some k) u
      → Over o k min
      → Under o k max
      → Chain o (Ordered o h) (some k) max v es
      → Holds K load h u
      → Distinct o t mint load x (chain_ids o t mint load x h u ((k, v) ∷ es))
      → o.lt x k ≡ false
      → Chained o t mint load x h v es (some k) max
      → Chained o t mint load x h u ((k, v) ∷ es) min max
  high-Chained h u k v es min max ou over under cs hu d high g = record {
    changes = g.changes;
    used = g.used;
    child = g.child;
    index = suc g.index;
    pend = g.pend;
    first = u;
    rest = (k, g.first) ∷ g.rest;
    used_up = g.used_up;
    at =
        child_and_index-right law (Ordered o h) (root_id K h) (root_id K h u) k x max v es cs high
        ∙ ap (bump law) g.at;
    root = refl;
    entries =
        ap (λ c. (k, c) ∷ entries_of K h g.rest) g.root
        ∙ ap (λ r. (k, root_id K h v) ∷ r) g.entries
        ∙ sym (enter_next h g.index g.pend (k, root_id K h v) (entries_of K h es));
    run = g.run;
    holds_first =
        Holds-frame load (apply g.changes load) h u
          (λ p n.
            g.kept p
              (omega
                (arith, n, (d p).0, count-append p (ids K h u) (chain_ids o t mint load x h v es)))
              ((d p).1 g.used
                (omega (arith, n, count-append p (ids K h u) (chain_ids o t mint load x h v es)))))
          hu;
    holds_rest = (g.holds_first, g.holds_rest);
    ordered = (ou, over, under, g.ordered);
    all_keys =
        ap (λ r. keys K h u ++ r) g.all_keys
        ∙ sym (
            insert_sorted-back law x (keys K h u) (chain_keys o t mint load x h v es) (
              All-imp (λ l w. lt_le_trans law l k x w.1 high) (keys K h u)
                (keys-Within law h min (some k) u ou)));
    all_ids = λ p. omega (
      arith,
      count-append p (ids K h u) (chain_ids o t mint load x h g.first g.rest),
      count-append p (ids K h u) (chain_ids o t mint load x h v es),
      g.all_ids p,
    );
    kept = λ p n.
        g.kept p (omega (arith, n, count-append p (ids K h u) (chain_ids o t mint load x h v es)));
  }

  -- Where an insert grows the subtrees of the height `h`, it grows a chain of them.
  pub chained :
      (h : ℕ)
      → Grows h
      → (u : Tree K h) (es : List (K × Tree K h)) (min max : Option K)
      → Chain o (Ordered o h) min max u es
      → Holds K load h u
      → All (λ e. Holds K load h e.1) es
      → Distinct o t mint load x (chain_ids o t mint load x h u es)
      → Within o min max x
      → Chained o t mint load x h u es min max
  chained h grows u [] min max c hu hs d w =
      last-Chained h u min max (grows u min max c hu (Distinct-part (ids K h u) [] d).0 w)
  chained h grows u ((k, v) ∷ es) min max (ou, over, under, cs) hu (hv, hs) d w =
      let parts = Distinct-part (ids K h u) (chain_ids o t mint load x h v es) d in
      elim (Bool-cases (o.lt x k)) [
        | inl low ↦
            low-Chained h u k v es min max over under cs (hv, hs) d low
              (grows u min (some k) ou hu parts.0 (w.0, low))
        | inr high ↦
            high-Chained h u k v es min max ou over under cs hu d high
              (chained h grows v es (some k) max cs hv hs parts.1 (high, w.1))
      ]
