-- ===== src/Tenancy/Mirror/Paths.antt =====
-- What a handler keeps, if its last stage keeps it: the guards change nothing.
use slot_booking.Base.{
  ℕ, suc, false, ◌≡◌, inl, inr, refl, sym, ap, ◌∙◌, some, Bool-cases, Option-cases, any, find_by,
  ltb, ◌==◌, if◌then◌else◌, arith,
}
use slot_booking.Base.Text.{str_eq}
use slot_booking.Effects.{Action, http, pure, or_raise, member_not_found}
use slot_booking.Tenancy.Rows.{
  Tenant, TenantMember, TenantInvitation, TenantRole, Tenancy, User, same_role, is_of, is_pending,
  get_tenant_row, membership_of, put_invitation,
}
use slot_booking.Tenancy.Session.{Platform, Site, read, commit_site}
use slot_booking.Tenancy.Access.{get_tenant_or_404, require_tenant_role}
use slot_booking.Tenancy.Access.Guards.{
  require_tenant_role-still, get_tenant_or_404-still, get_tenant_or_404-found, or_raise-still,
  or_raise-found, read-value,
}
use slot_booking.Tenancy.Members.{
  TenantMemberUpdate, remove_member, take_out, may_remove, guard_last_owner, update_member_role,
  set_role, put_role, may_promote,
}
use slot_booking.Tenancy.Invitations.{
  AcceptInvitationRequest, accept_invitation, accept_in_time, check_expiry, join, has_token,
  is_already, lapsed_invitation,
}
use slot_booking.Tenancy.Mirror.Stages.{Keeps, Keeps-≡, stays, guarded}

may_remove-still :
    {p : Platform} (k user_id : ℕ) (user : User) (w : Site p) → (may_remove k user_id user w).1 ≡ w
unfolding may_remove
may_remove-still k user_id user w = elim (Bool-cases (user_id == user.id)) [
  | inl self ↦ ground arith
  | inr other ↦ ground (arith, require_tenant_role-still k user TenantRole.admin w)
]

guard_last_owner-still :
    {p : Platform} (k : ℕ) (m : TenantMember) (w : Site p) → (guard_last_owner k m w).1 ≡ w
unfolding guard_last_owner
guard_last_owner-still k m w = refl

may_promote-still :
    {p : Platform} (k : ℕ) (role : TenantRole) (user : User) (w : Site p)
    → (may_promote k role user w).1 ≡ w
unfolding may_promote
may_promote-still k role user w = elim (Bool-cases (same_role role TenantRole.owner)) [
  | inl owner_role ↦ ground (arith, require_tenant_role-still k user TenantRole.owner w)
  | inr other ↦ ground arith
]

module _ {p : Platform} (Q : Tenancy → p.Enforcer → Type 0) where
  -- The session of a request.
  abbrev pub fresh : Site p → Site p
  fresh w = record w { db = w.saved }

  pub remove_member-Keeps :
      (k user_id : ℕ) (user : User) (w : Site p)
      → Q w.saved w.enforcer
      → ((m : TenantMember) (t : Tenant)
          → membership_of k user_id w.saved ≡ some m
          → get_tenant_row k w.saved ≡ some t
          → Keeps Q (take_out m t k user_id user) (fresh w))
      → Keeps Q (remove_member k user_id user) (fresh w)
  unfolding remove_member
  remove_member-Keeps k user_id user w holds next =
      let v = fresh w in
      guarded Q (may_remove k user_id user) _ v (may_remove-still k user_id user v) holds (λ _ _.
        guarded Q (read (membership_of k user_id)) _ v refl holds (λ o got.
          guarded Q (or_raise o (http 404 member_not_found)) _ v (or_raise-still o _ v) holds
            (λ m found.
              guarded Q (get_tenant_or_404 k) _ v (get_tenant_or_404-still k v) holds (λ t there.
                guarded Q (guard_last_owner k m) _ v (guard_last_owner-still k m v) holds (λ _ _.
                  next m t
                    (read-value (membership_of k user_id) o v got ∙ or_raise-found o _ v m found)
                    (get_tenant_or_404-found k v t there))))))

  pub set_role-Keeps :
      (m : TenantMember) (k user_id : ℕ) (role : TenantRole) (w : Site p)
      → Q w.saved w.enforcer
      → ((t : Tenant)
          → get_tenant_row k w.db ≡ some t
          → same_role m.role role ≡ false
          → Keeps Q (put_role m user_id role t) w)
      → Keeps Q (set_role m user_id role k) w
  unfolding set_role
  set_role-Keeps m k user_id role w holds last =
      let next : Tenant → Action (Site p) TenantMember =
        λ t. if same_role m.role role then pure m else put_role m user_id role t in
      guarded Q (get_tenant_or_404 k) next w (get_tenant_or_404-still k w) holds (λ t there.
        elim (Bool-cases (same_role m.role role)) [
          | inl same ↦ stays Q (next t) w w.saved (ground arith) (ground arith) holds
          | inr differ ↦
              Keeps-≡ Q (put_role m user_id role t) (next t) w w (ground arith, ground arith)
                (last t (get_tenant_or_404-found k w t there) differ)
        ])

  pub update_member_role-Keeps :
      (k user_id : ℕ) (payload : TenantMemberUpdate) (user : User) (w : Site p)
      → Q w.saved w.enforcer
      → ((m : TenantMember) (t : Tenant)
          → membership_of k user_id w.saved ≡ some m
          → get_tenant_row k w.saved ≡ some t
          → same_role m.role payload.role ≡ false
          → Keeps Q (put_role m user_id payload.role t) (fresh w))
      → Keeps Q (update_member_role k user_id payload user) (fresh w)
  unfolding update_member_role
  update_member_role-Keeps k user_id payload user w holds next =
      let v = fresh w in
      let role = payload.role in
      guarded Q (require_tenant_role k user TenantRole.admin) _ v
        (require_tenant_role-still k user _ v) holds
        (λ _ _.
          guarded Q (may_promote k role user) _ v (may_promote-still k role user v) holds (λ _ _.
            guarded Q (read (membership_of k user_id)) _ v refl holds (λ o got.
              guarded Q (or_raise o (http 404 member_not_found)) _ v (or_raise-still o _ v) holds
                (λ m found. set_role-Keeps m k user_id role v holds (λ t there differ.
                  next m t
                    (read-value (membership_of k user_id) o v got ∙ or_raise-found o _ v m found)
                    there differ)))))

  accept_in_time-Keeps :
      (i : TenantInvitation) (user : User) (w : Site p)
      → Q w.saved w.enforcer
      → ((t : Tenant) (k : ℕ)
          → get_tenant_row k w.db ≡ some t
          → any (is_of k user.id) w.db.members ≡ false
          → Keeps Q (join i t user) w)
      → Keeps Q (accept_in_time i user) w
  unfolding accept_in_time get_tenant_or_404
  accept_in_time-Keeps i user w holds next =
      let unchanged = stays Q (accept_in_time i user) w w.saved in
      elim (Bool-cases (str_eq i.email user.email)) [
        | inr other ↦ unchanged (ground arith) (ground arith) holds
        | inl addressed ↦ elim (Bool-cases (any (is_already i.tenant_id user.id) w.db.members)) [
          | inl already ↦ unchanged (ground arith) (ground arith) holds
          | inr new ↦ elim (Option-cases i.tenant_id) [
            | inl orphan ↦ unchanged (ground arith) (ground arith) holds
            | inr (k, of_tenant) ↦ elim (Option-cases (get_tenant_row k w.db)) [
              | inl gone ↦ unchanged (ground arith) (ground arith) holds
              | inr (t, there) ↦
                  let all : accept_in_time i user w ≡ join i t user w = ground arith in
                  Keeps-≡ Q (join i t user) (accept_in_time i user) w w
                    (ap (λ r. r.1.saved) all, ap (λ r. r.1.enforcer) all)
                    (next t k there
                      (ap (λ o. any (is_already o user.id) w.db.members) (sym of_tenant) ∙ new))
            ]
          ]
        ]
      ]

  pub accept_invitation-Keeps :
      (body : AcceptInvitationRequest) (user : User) (w : Site p)
      → Q w.saved w.enforcer
      → ((i : TenantInvitation) → Q (put_invitation (lapsed_invitation i) w.saved) w.enforcer)
      → ((i : TenantInvitation) (t : Tenant) (k : ℕ)
          → get_tenant_row k w.saved ≡ some t
          → any (is_of k user.id) w.saved.members ≡ false
          → Keeps Q (join i t user) (record (fresh w) { reads = suc w.reads }))
      → Keeps Q (accept_invitation body user) (fresh w)
  unfolding accept_invitation check_expiry commit_site
  accept_invitation-Keeps body user w holds lapse next =
      let v = fresh w in
      let unchanged = stays Q (accept_invitation body user) v in
      elim (Option-cases (find_by (has_token body.token) w.saved.invitations)) [
        | inl absent ↦ unchanged w.saved (ground arith) (ground arith) holds
        | inr (i, found) ↦ elim (Bool-cases (is_pending i.status)) [
          | inr closed ↦ unchanged w.saved (ground arith) (ground arith) holds
          | inl pending ↦ elim (Bool-cases (ltb i.expires_at (w.clock w.reads))) [
            | inl late ↦ elim (Bool-cases (p.try_commit w.connection).0) [
              | inl saved ↦
                  unchanged (put_invitation (lapsed_invitation i) w.saved) (ground arith)
                    (ground arith) (lapse i)
              | inr lost ↦ unchanged w.saved (ground arith) (ground arith) holds
            ]
            | inr in_time ↦
                let v1 = record v { reads = suc w.reads } in
                Keeps-≡ Q (accept_in_time i user) (accept_invitation body user) v1 v
                  (ground arith, ground arith) (accept_in_time-Keeps i user v1 holds (next i))
          ]
        ]
      ]
