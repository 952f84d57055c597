-- ===== src/Tenancy/Lists/Empty.antt =====
-- The cached answer of `list_my_tenants`.
use slot_booking.Base.{ℕ, suc, ◌+◌, ◌<◌, ◌≡◌, String, List, [], none, some, arith}
use slot_booking.Base.Text.{str_eq_refl}
use slot_booking.Effects.{ok, err, response_invalid, seconds}
use slot_booking.Tenancy.Rows.{User}
use slot_booking.Tenancy.Session.{Platform, Site, CachedList}
use slot_booking.Tenancy.Access.{window, page_of}
use slot_booking.Tenancy.Lists.{
  list_key, tenants_of, lookup_list, list_my_tenants_route, list_my_tenants, cached_list,
  build_list, set_list, as_response,
}
use slot_booking.Base.{length}

-- A page without tenants is answered as it should be and cached for two minutes; until then the same
-- request fails, since the cached dictionary has no `has_more`.
pub empty_list_fails_again :
    {p : Platform} (skip limit : ℕ) (user : User) (w v : Site p)
    (entries : List (String × CachedList))
    → w.lists ≡ some entries
    → lookup_list (list_key user.id skip limit) (w.clock w.reads) entries ≡ none
    → window skip limit (tenants_of user.id w.db) ≡ []
    → let (r, w') = list_my_tenants_route skip limit user w in
      (r ≡ ok (page_of [] (length (tenants_of user.id w.db)) skip limit))
      × (v.lists ≡ w'.lists
          → v.clock v.reads < w.clock (suc w.reads) + seconds 120
          → (list_my_tenants_route skip limit user v).0 ≡ err response_invalid)
unfolding list_my_tenants_route list_my_tenants cached_list build_list set_list as_response
empty_list_fails_again skip limit user w v entries client miss none_there =
    (ground arith, λ same soon. ground (arith, str_eq_refl (list_key user.id skip limit)))
