-- ===== src/Rbtree/Contract.antt =====
-- kernel/lib/rbtree.c: insertion and removal as changes of the list of items, in balanced trees.
use jnu.Base.{◌≡◌, refl, sym, ap, ◌∙◌, List, [], ◌∷◌, ◌++◌}
use jnu.Rbtree.{Tree, leaf, node, Parents, top, left_of, right_of, Cursor, plug}
use jnu.Rbtree.Order.{flat, items, before, after, items-link_node, items-rb_erase, items-plug}
use jnu.Rbtree.Insert.{link_node}
use jnu.Rbtree.Erase.{rb_erase}
use jnu.Rbtree.Balance.{Balanced}
use jnu.Rbtree.Balance.Insert.{link_node-Balanced}
use jnu.Rbtree.Balance.Erase.{rb_erase-Balanced}
use mathlib.Core.List.{append_assoc}

module _ {ℓ} {A : Type ℓ} where
  -- The tree that a cursor stands in.
  abbrev pub whole : Cursor A → Tree A
  whole z = plug (node z.color z.left z.item z.right) z.above

  -- What comes before a place, as a list.
  glue :
      (zs xs : List A) (a : A) (k : List A) → (zs ++ (xs ++ (a ∷ []))) ++ k ≡ zs ++ (xs ++ (a ∷ k))
  glue [] [] a k = refl
  glue [] (x ∷ xs) a k = ap (λ y. x ∷ y) (glue [] xs a k)
  glue (z ∷ zs) xs a k = ap (λ y. z ∷ y) (glue zs xs a k)

  flat-append : (t : Tree A) (k : List A) → flat t k ≡ items t ++ k
  flat-append leaf k = refl
  flat-append (node c l b r) k =
      flat-append l (b ∷ flat r k)
      ∙ (ap (λ x. items l ++ (b ∷ x)) (flat-append r k)
          ∙ (sym (append_assoc (items l) (b ∷ items r) k)
              ∙ ap (λ x. x ++ k) (sym (flat-append l (b ∷ items r)))))

  prefix : (p : Parents A) → (zs : List A) × ((k : List A) → before p k ≡ zs ++ k)
  prefix top = ([], λ k. refl)
  prefix (left_of c a r p) = prefix p
  prefix (right_of c l a p) =
      let (zs, e) = prefix p in
      (
        zs ++ (items l ++ (a ∷ [])),
        λ k.
            e (flat l (a ∷ k))
            ∙ (ap (λ x. zs ++ x) (flat-append l (a ∷ k)) ∙ sym (glue zs (items l) a k)),
      )

  -- The items around the place of an area.
  pub around :
      (z : Cursor A)
      → (zs : List A) × (ws : List A) × (items (whole z) ≡ zs ++ (z.item ∷ ws))
        × (items (rb_erase z) ≡ zs ++ ws)
  around z =
      let (zs, e) = prefix z.above in
      let ws = flat z.right (after z.above) in
      (
        zs ++ items z.left,
        ws,
        items-plug (node z.color z.left z.item z.right) z.above
            ∙ (e (flat z.left (z.item ∷ ws))
                ∙ (ap (λ x. zs ++ x) (flat-append z.left (z.item ∷ ws))
                    ∙ sym (append_assoc zs (items z.left) (z.item ∷ ws)))),
        items-rb_erase z
            ∙ (e (flat z.left ws)
                ∙ (ap (λ x. zs ++ x) (flat-append z.left ws)
                    ∙ sym (append_assoc zs (items z.left) ws))),
      )

  -- In a red-black tree, `rb_erase` of any node leaves the items before it and the items behind
  -- it in their order, and the result is a red-black tree.
  pub rb_erase-Tree :
      (z : Cursor A)
      → Balanced (whole z)
      → (zs : List A) × (ws : List A) × (items (whole z) ≡ zs ++ (z.item ∷ ws))
        × (items (rb_erase z) ≡ zs ++ ws)
        × Balanced (rb_erase z)
  rb_erase-Tree z good = let (zs, ws, x, y) = around z in (zs, ws, x, y, rb_erase-Balanced z good)

  -- At a free place of a red-black tree, `rb_link_node` and `rb_insert_color` put the new item
  -- between the items before the place and those behind it, and the result is a red-black tree.
  pub link_node-Tree :
      (a : A) (p : Parents A)
      → Balanced (plug leaf p)
      → (zs : List A) × (ws : List A) × (items (plug leaf p) ≡ zs ++ ws)
        × (items (link_node a p) ≡ zs ++ (a ∷ ws))
        × Balanced (link_node a p)
  link_node-Tree a p good =
      let (zs, e) = prefix p in
      (
        zs,
        after p,
        items-plug leaf p ∙ e (after p),
        items-link_node a p ∙ e (a ∷ after p),
        link_node-Balanced a p good,
      )
