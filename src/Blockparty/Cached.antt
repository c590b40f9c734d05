-- ===== src/Blockparty/Cached.antt =====
-- The cache of administrators in src/services/blockparty.service.ts against the table.
use blitzpool.Prelude.{
  some_eq, ◌≡◌, sym, ap, ◌∙◌, List, [], ◌∷◌, ◌++◌, map, none, some, str_eq, if◌then◌else◌,
  Bool-cases, inl, inr,
}
use blitzpool.Coinbase.Weight.{Address}
use blitzpool.Blockparty.Store.{BlockpartyGroup, CacheEntry, cache_get, find_group, replace_group}
use blitzpool.Blockparty.Routes.{is_routable, is_pending}
use blitzpool.Blockparty.Tables.{
  save_moves, find_group-save, find_group-insert, eq_of-str_eq, ne_of-str_eq, str_eq_of-eq,
}
use blitzpool.Blockparty.Selects.{option_map, or_last}
use blitzpool.Blockparty.Routing.{Alike, CacheAgrees}

module _ (gs : List BlockpartyGroup) (cache : List (Address × CacheEntry)) where
  -- A party is saved in a status like its old one; the cache is not told.
  pub save-CacheAgrees :
      (g h : BlockpartyGroup)
      → find_group g.id gs ≡ some g
      → h.id ≡ g.id
      → h.admin_address ≡ g.admin_address
      → Alike g.status h.status
      → CacheAgrees cache gs
      → CacheAgrees cache (map (replace_group h) gs)
  save-CacheAgrees g h old same admin_kept alike agrees a e hit =
      let (k, at, named, like) = agrees a e hit in
      elim (save_moves e.group_id g h k gs old same at) [
        | inl (now, is_g) ↦ (
          h,
          now,
          admin_kept ∙ sym (ap (λ r. r.admin_address) is_g) ∙ named,
          (
            like.0 ∙ ap (λ r. is_routable r.status) is_g ∙ alike.0,
            like.1 ∙ ap (λ r. is_pending r.status) is_g ∙ alike.1,
          ),
        )
        | inr now ↦ (k, now, named, like)
      ]

  -- A party is saved, and its entry is set.
  pub recache-CacheAgrees :
      (g h : BlockpartyGroup) (b : Address)
      → find_group g.id gs ≡ some g
      → h.id ≡ g.id
      → h.admin_address ≡ g.admin_address
      → b ≡ g.admin_address
      → CacheAgrees cache gs
      → CacheAgrees
          ((b, record { group_id = g.id; status = h.status }) ∷ cache)
          (map (replace_group h) gs)
  unfolding cache_get
  recache-CacheAgrees g h b old same admin_kept own agrees a e hit =
      elim (Bool-cases (str_eq b a)) [
        | inl k ↦
            let entry : record { group_id = g.id; status = h.status } ≡ e = some_eq (rw k at hit) in
            let now : find_group g.id (map (replace_group h) gs) ≡ some h =
              find_group-save g.id h gs
              ∙ ap (option_map (replace_group h)) old
              ∙ ap (λ t. some (if t then h else g))
                  (str_eq_of-eq {a = g.id} {b = h.id} (sym same)) in
            (
              h,
              ap (λ f. find_group f.group_id (map (replace_group h) gs)) (sym entry) ∙ now,
              admin_kept ∙ sym own ∙ eq_of-str_eq b a k,
              (
                ap (λ f. is_routable f.status) (sym entry),
                ap (λ f. is_pending f.status) (sym entry),
              ),
            )
        | inr k ↦
            let (p, at, named, like) = agrees a e (rw k at hit) in
            elim (save_moves e.group_id g h p gs old same at) [
              | inl (now, is_g) ↦
                  absurd (ne_of-str_eq b a k (own ∙ sym (ap (λ r. r.admin_address) is_g) ∙ named))
              | inr now ↦ (p, now, named, like)
            ]
      ]

  pub insert-CacheAgrees :
      (g : BlockpartyGroup) → CacheAgrees cache gs → CacheAgrees cache (gs ++ g ∷ [])
  insert-CacheAgrees g agrees a e hit =
      let (k, at, named, like) = agrees a e hit in
      (
        k,
        find_group-insert e.group_id gs g
            ∙ ap (λ o. or_last o (if str_eq g.id e.group_id then some g else none)) at,
        named,
        like,
      )
