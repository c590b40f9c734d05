-- ===== src/Blockparty/Edits.antt =====
-- updateSplits of src/services/blockparty.service.ts on the consents: the percentages change, and who
-- is not the administrator is asked again.
use blitzpool.Prelude.{
  none-some, some_eq, ℕ, ◌≡◌, refl, sym, ap, ◌∙◌, true, false, ◌&&◌, List, [], ◌∷◌, map, Option,
  none, some, String, str_eq, arith, Bool-cases, Option-cases, inl, inr, All, ◌≢◌,
}
use text.Mathlib.TextPositions.{eq_refl}
use blitzpool.Coinbase.Weight.{Address}
use blitzpool.Blockparty.Store.{
  BlockpartyGroup, BlockpartyMember, Parties, find_group, find_member, is_row, replace_member,
  members_of, save_member,
}
use blitzpool.Blockparty.Service.{BlockpartyService, is_confirmed, recompute_status}
use blitzpool.Blockparty.Membership.{
  MemberInput, edits_of, edit_member, edit_members, check_update, update_splits,
}
use blitzpool.Blockparty.Calls.{updates}
use blitzpool.Blockparty.Selects.{option_map}
use blitzpool.Blockparty.Tables.{eq_of-str_eq, ne_of-str_eq, str_eq_of-ne}
use blitzpool.Blockparty.Granted.{check_update-found}
use blitzpool.Blockparty.Agreed.{members_of-own}
use blitzpool.Blockparty.Paid.{recompute-members}
use blitzpool.Blockparty.Consents.{Consents, own_edit, edited_at, after_call}
use blitzpool.Blockparty.Backed.{find_member-save, found_key, first_of-kept}
use blitzpool.Blockparty.Consented.{BackedIn, answered-Backed}

module _ (id : String) (now : ℕ) (admin_address : Address) (edits : List (Address × ℕ)) where
  abbrev edited : BlockpartyMember → BlockpartyMember
  edited m = edit_member now admin_address edits m

  abbrev after_edits : List BlockpartyMember → Parties → Parties
  after_edits ms s = edit_members now admin_address edits ms s

  -- Of the rows that are found at an address, only the administrator's is confirmed.
  abbrev IsAsked : Address → Option BlockpartyMember → Type 0
  IsAsked a o =
      (m : BlockpartyMember) → o ≡ some m → is_confirmed m ≡ true → str_eq a admin_address ≡ true

  edited-IsAsked :
      (a : Address) (m : BlockpartyMember)
      → m.address ≡ a
      → is_confirmed (edited m) ≡ true
      → str_eq a admin_address ≡ true
  unfolding edit_member
  edited-IsAsked a m named h = ap (λ b. str_eq b admin_address) (sym named) ∙ ground (arith, h)

  edited-key :
      (a : Address) (m n : BlockpartyMember)
      → m.group_id ≡ id
      → is_row (edited m).group_id (edited m).address n ≡ is_row id m.address n
  unfolding edit_member
  edited-key a m n own = ap (λ k. is_row k m.address n) own

  -- A row is saved over the one that is found.
  saved-IsAsked :
      (a : Address) (m : BlockpartyMember) (ms : List BlockpartyMember)
      → m.group_id ≡ id
      → (str_eq m.address a ≡ false → IsAsked a (find_member id a ms))
      → IsAsked a (find_member id a (map (replace_member (edited m)) ms))
  saved-IsAsked a m ms own rest k found confirmed = elim (Option-cases (find_member id a ms)) [
    | inl e ↦ absurd (
        none-some (
          sym (find_member-save id a (edited m) ms ∙ ap (option_map (replace_member (edited m))) e)
          ∙ found))
    | inr (n, e) ↦
        let saved : replace_member (edited m) n ≡ k = some_eq (
          sym (find_member-save id a (edited m) ms ∙ ap (option_map (replace_member (edited m))) e)
          ∙ found) in
        let key : is_row (edited m).group_id (edited m).address n ≡ str_eq m.address a =
          edited-key a m n own
          ∙ found_key id id a m.address ms e
          ∙ ap (λ t. t && str_eq m.address a) (eq_refl id) in
        elim (Bool-cases (str_eq m.address a)) [
          | inl same ↦
              edited-IsAsked a m (eq_of-str_eq m.address a same)
                (ap is_confirmed (rw (key, same) at saved) ∙ confirmed)
          | inr other ↦ rest other k (e ∙ ap some (rw (key, other) at saved)) confirmed
        ]
  ]

  saved_one :
      (a : Address) (m : BlockpartyMember) (s : Parties)
      → m.group_id ≡ id
      → (str_eq m.address a ≡ false → IsAsked a (find_member id a s.members))
      → IsAsked a (find_member id a (save_member (edited m) s).members)
  unfolding save_member
  saved_one a m s own rest = saved-IsAsked a m s.members own rest

  -- Once all rows of the party are edited, only the administrator's is confirmed.
  after_edits-IsAsked :
      (a : Address) (ms : List BlockpartyMember) (s : Parties)
      → All (λ m. m.group_id ≡ id) ms
      → (find_member id a ms ≡ none → IsAsked a (find_member id a s.members))
      → IsAsked a (find_member id a (after_edits ms s).members)
  unfolding edit_members find_member
  after_edits-IsAsked a [] s own h = h refl
  after_edits-IsAsked a (m ∷ ms) s own h =
      after_edits-IsAsked a ms (save_member (edited m) s) own.1
        λ later. saved_one a m s own.0 (λ other. h (rw (own.0, eq_refl id, other) later))

  saved_other :
      (i : String) (a : Address) (m : BlockpartyMember) (s : Parties) (k : BlockpartyMember)
      → id ≢ i
      → m.group_id ≡ id
      → find_member i a (save_member (edited m) s).members ≡ some k
      → find_member i a s.members ≡ some k
  unfolding save_member
  saved_other i a m s k apart own found = elim (Option-cases (find_member i a s.members)) [
    | inl e ↦ absurd (
        none-some (
          sym (
            find_member-save i a (edited m) s.members
            ∙ ap (option_map (replace_member (edited m))) e)
          ∙ found))
    | inr (n, e) ↦
        let saved : replace_member (edited m) n ≡ k = some_eq (
          sym (
            find_member-save i a (edited m) s.members
            ∙ ap (option_map (replace_member (edited m))) e)
          ∙ found) in
        let key : is_row (edited m).group_id (edited m).address n ≡ false =
          edited-key a m n own
          ∙ found_key i id a m.address s.members e
          ∙ ap (λ t. t && str_eq m.address a) (str_eq_of-ne id i apart) in
        e ∙ ap some (rw key at saved)
  ]

  -- Another party's rows stay.
  after_edits-other :
      (i : String) (a : Address) (ms : List BlockpartyMember) (s : Parties) (k : BlockpartyMember)
      → id ≢ i
      → All (λ m. m.group_id ≡ id) ms
      → find_member i a (after_edits ms s).members ≡ some k
      → find_member i a s.members ≡ some k
  unfolding edit_members
  after_edits-other i a [] s k apart own found = found
  after_edits-other i a (m ∷ ms) s k apart own found =
      saved_other i a m s k apart own.0
        (after_edits-other i a ms (save_member (edited m) s) k apart own.1 found)

module _ (service : BlockpartyService) (s : Parties) (c : Consents) (backed : BackedIn c s) where
  edited_party :
      (id : String) (g : BlockpartyGroup) (a : Address) (o : Option BlockpartyMember)
      (k : BlockpartyMember)
      → find_group id s.groups ≡ some g
      → o ≡ some k
      → str_eq a g.admin_address ≡ true
      → own_edit a (find_group id s.groups) o ≡ some k.percent_bp
  edited_party id g a o k found at admin = rw (found, at, admin) refl

  edits-Backed :
      (id : String) (now : ℕ) (edits : List (Address × ℕ)) (g : BlockpartyGroup) (t : Parties)
      → find_group id s.groups ≡ some g
      → t.members ≡ (edit_members now g.admin_address edits (members_of id s.members) s).members
      → BackedIn (edited_at id (find_group id s.groups) c t) t
  unfolding find_member members_of
  edits-Backed id now edits g t found same i a k at confirmed =
      let rows = members_of id s.members in
      let at' = sym (ap (find_member i a) same) ∙ at in
      elim (Bool-cases (str_eq id i)) [
        | inr other ↦ rw other (
            backed i a k
              (after_edits-other id now g.admin_address edits i a rows s k (ne_of-str_eq id i other)
                (members_of-own id s.members) at')
              confirmed)
        | inl own ↦
            let party : i ≡ id = sym (eq_of-str_eq id i own) in
            let here : find_member id a t.members ≡ some k =
              ap (λ x. find_member x a t.members) (sym party) ∙ at in
            rw own (
              edited_party id g a (find_member id a t.members) k found here (
                after_edits-IsAsked id now g.admin_address edits a rows s
                  (members_of-own id s.members)
                  (λ nowhere m there _. absurd (
                    none-some (
                      sym nowhere
                      ∙ first_of-kept (is_row id a) (λ n. str_eq n.group_id id)
                          (λ n row. ground (arith, row)) s.members
                      ∙ there)))
                  k (sym (ap (find_member id a) same) ∙ here) confirmed))
      ]

  pub update-Backed :
      (now : ℕ) (id : String) (us : List MemberInput) (token : Option String)
      → BackedIn
          (after_call service (updates now id us token) s c)
          (update_splits service now id us token s).0
  unfolding after_call update_splits
  update-Backed now id us token =
      answered-Backed s (check_update service s id us token) _
        (edited_at id (find_group id s.groups) c) c backed
        λ x granted.
          let (found, _) = check_update-found service s id us token granted in
          let edits = edits_of x.1 [] in
          let t = edit_members now x.0.admin_address edits (members_of id s.members) s in
          edits-Backed id now edits x.0 (recompute_status id t) found (recompute-members id t)
