-- ===== src/Tenancy/Mirror/Requests.antt =====
-- Sequences of requests for a tenant's members, each in a session of its own.
use slot_booking.Base.{ℕ, suc, List, [], ◌∷◌, refl}
use slot_booking.Tenancy.Rows.{User}
use slot_booking.Tenancy.Session.{Platform, EnforcerLaws, Site, run_site}
use slot_booking.Tenancy.Members.{TenantMemberUpdate, remove_member, update_member_role}
use slot_booking.Tenancy.Invitations.{AcceptInvitationRequest, accept_invitation}
use slot_booking.Tenancy.Mirror.{IsMirrored, EnforcerHolds, CommitsHold}
use slot_booking.Tenancy.Mirror.Joining.{accept_invitation-IsMirrored}
use slot_booking.Tenancy.Mirror.Leaving.{remove_member-IsMirrored}
use slot_booking.Tenancy.Mirror.Changing.{update_member_role-IsMirrored}
use slot_booking.Tenancy.Mirror.Paths.{
  accept_invitation-Keeps, remove_member-Keeps, update_member_role-Keeps,
}
use slot_booking.Tenancy.Mirror.Keys.{
  IsKeyed, IsFresh, join-IsKeyed, take_out-IsKeyed, put_role-IsKeyed,
}

pub data MemberRequest : Type 0 where
  accept : AcceptInvitationRequest → User → MemberRequest
  remove : (tenant_id user_id : ℕ) → User → MemberRequest
  change_role : (tenant_id user_id : ℕ) → TenantMemberUpdate → User → MemberRequest

module _ {p : Platform} where
  -- What a request leaves, whatever its answer is.
  unfoldable pub serve : MemberRequest → Site p → Site p
  serve (MemberRequest.accept body user) w = (run_site (accept_invitation body user) w).1
  serve (MemberRequest.remove k user_id user) w = (run_site (remove_member k user_id user) w).1
  serve (MemberRequest.change_role k user_id payload user) w =
      (run_site (update_member_role k user_id payload user) w).1

  unfoldable pub serve_all : List MemberRequest → Site p → Site p
  serve_all [] w = w
  serve_all (r ∷ requests) w = serve_all requests (serve r w)

  serve-IsKeyed :
      (r : MemberRequest) (w : Site p) → IsFresh p → IsKeyed w.saved → IsKeyed (serve r w).saved
  unfolding serve run_site
  serve-IsKeyed (MemberRequest.accept body user) w fresh keyed =
      (accept_invitation-Keeps (λ db e. IsKeyed db) body user w keyed (λ i. keyed)
        (λ i t k there absent.
          join-IsKeyed i t user k (record w { db = w.saved; reads = suc w.reads }) fresh refl keyed
            there absent)).kept
  serve-IsKeyed (MemberRequest.remove k user_id user) w fresh keyed =
      (remove_member-Keeps (λ db e. IsKeyed db) k user_id user w keyed
        (λ m t found there.
          take_out-IsKeyed m t k user_id user (record w { db = w.saved }) refl keyed)).kept
  serve-IsKeyed (MemberRequest.change_role k user_id payload user) w fresh keyed =
      (update_member_role-Keeps (λ db e. IsKeyed db) k user_id payload user w keyed
        (λ m t found there differ.
          put_role-IsKeyed m t k user_id payload.role (record w { db = w.saved }) refl keyed
            found)).kept

  serve-IsMirrored :
      (laws : EnforcerLaws p) (r : MemberRequest) (w : Site p)
      → EnforcerHolds p
      → CommitsHold p
      → IsKeyed w.saved
      → IsMirrored p w.saved w.enforcer
      → IsMirrored p (serve r w).saved (serve r w).enforcer
  unfolding serve
  serve-IsMirrored laws (MemberRequest.accept body user) w holds commits keyed mirrored =
      accept_invitation-IsMirrored laws body user w commits mirrored keyed.0
  serve-IsMirrored laws (MemberRequest.remove k user_id user) w holds commits keyed mirrored =
      remove_member-IsMirrored laws k user_id user w commits mirrored keyed.0 keyed.1 keyed.2
  serve-IsMirrored laws (MemberRequest.change_role k user_id payload user) w holds commits keyed
        mirrored =
      update_member_role-IsMirrored laws k user_id payload user w holds commits mirrored keyed.0
        keyed.1 keyed.2

  -- After every sequence of accepted invitations, removals and changes of roles, whatever the guards
  -- refuse: a user has a grouping of a role in a tenant's domain exactly where a committed row says
  -- so, no two tenants share a domain and no two rows an id or a tenant and a user, if that was so
  -- before, if neither the enforcer's calls raise nor commits fail, and if the sequence of the rows'
  -- ids gives new ones.
  pub serve_all-IsMirrored :
      (laws : EnforcerLaws p) (requests : List MemberRequest) (w : Site p)
      → EnforcerHolds p
      → CommitsHold p
      → IsFresh p
      → IsKeyed w.saved
      → IsMirrored p w.saved w.enforcer
      → let w' = serve_all requests w in IsMirrored p w'.saved w'.enforcer × IsKeyed w'.saved
  unfolding serve_all
  serve_all-IsMirrored laws [] w holds commits fresh keyed mirrored = (mirrored, keyed)
  serve_all-IsMirrored laws (r ∷ requests) w holds commits fresh keyed mirrored =
      serve_all-IsMirrored laws requests (serve r w) holds commits fresh
        (serve-IsKeyed r w fresh keyed) (serve-IsMirrored laws r w holds commits keyed mirrored)
