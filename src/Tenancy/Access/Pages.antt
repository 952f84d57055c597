-- ===== src/Tenancy/Access/Pages.antt =====
-- A client that follows the pages of a list sees each row once, in order.
use slot_booking.Base.{
  ℕ, zero, suc, ◌+◌, ◌≤◌, ◌≡◌, ap, ◌∙◌, sym, false, List, [], ◌++◌, some, drop, length, ltb,
  if◌then◌else◌, inl, inr, Bool-cases, arith,
}
use slot_booking.Base.Slices.{take-append-drop, drop-drop, drop_all, length-take}
use slot_booking.Effects.{Action, ok, pure, ◌>>=◌}
use slot_booking.Tenancy.Rows.{TenantMember, User}
use slot_booking.Tenancy.Session.{Platform, Site, Page}
use slot_booking.Tenancy.Access.{window, paginate, page_of, require_tenant_role, active_membership}
use slot_booking.Tenancy.Members.{list_members, members_of}

-- The requests of a client: page after page while there are more, for a number of rounds.
unfoldable pub follow : {W A : Type 0} → (ℕ → Action W (Page A)) → ℕ → ℕ → ℕ → Action W (List A)
follow request limit zero skip = pure []
follow request limit (suc fuel) skip = request skip >>= λ page.
    (if page.has_more then follow request limit fuel (skip + limit) else pure []) >>= λ rest.
    pure (page.items ++ rest)

module _ {A : Type 0} where
  -- Where a page says there is no more, nothing follows it.
  last_page :
      (skip limit : ℕ) (xs : List A)
      → (paginate skip limit xs).has_more ≡ false
      → drop (skip + limit) xs ≡ []
  unfolding page_of
  last_page skip limit xs e =
      drop_all (skip + limit) xs (ground (arith, length-take limit (drop skip xs)))

  page-append-drop :
      (skip limit : ℕ) (xs : List A) → window skip limit xs ++ drop (skip + limit) xs ≡ drop skip xs
  page-append-drop skip limit xs =
      ap (λ ys. window skip limit xs ++ ys) (sym (drop-drop skip limit xs))
      ∙ take-append-drop limit (drop skip xs)

follow_lem :
    {W A : Type 0} (request : ℕ → Action W (Page A)) (limit : ℕ) (rows : List A) (w : W)
    → 1 ≤ limit
    → ((skip : ℕ) → request skip w ≡ (ok (paginate skip limit rows), w))
    → (fuel skip : ℕ) → length rows ≤ fuel + skip
    → follow request limit fuel skip w ≡ (ok (drop skip rows), w)
unfolding follow page_of
follow_lem request limit rows w some_limit answers zero skip enough =
    ground (arith, drop_all skip rows)
follow_lem request limit rows w some_limit answers (suc fuel) skip enough =
    elim (Bool-cases (ltb (skip + length (window skip limit rows)) (length rows))) [
      | inl more ↦
          let rest =
            follow_lem request limit rows w some_limit answers fuel (skip + limit) (omega arith) in
          ground (arith, answers skip, rest, page-append-drop skip limit rows)
      | inr last ↦
          ground
            (arith, answers skip, last_page skip limit rows last, page-append-drop skip limit rows)
    ]

module _ {p : Platform} where
  -- A member who asks for the members of a tenant page by page, with a limit of one or more, as long
  -- as `has_more` says so, gets every row of the tenant once and in order, within one request more
  -- than there are rows, if the database keeps their order from one request to the next.
  pub list_members_covers :
      (k limit : ℕ) (user : User) (w : Site p) (m : TenantMember)
      → active_membership k user.id w.db ≡ some m
      → 1 ≤ limit
      → follow (λ skip. list_members k skip limit user) limit (suc (length (members_of k w.db))) 0 w
        ≡ (ok (members_of k w.db), w)
  unfolding list_members require_tenant_role
  list_members_covers k limit user w m member some_limit =
      follow_lem (λ skip. list_members k skip limit user) limit (members_of k w.db) w some_limit
        (λ skip. ground arith) (suc (length (members_of k w.db))) 0 (omega arith)
