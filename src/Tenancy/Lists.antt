-- ===== src/Tenancy/Lists.antt =====
-- backend/src/apps/multitenancy/api/v1/tenant.py: `list_my_tenants`, with its cached answers.
pub mod Empty
use mathlib.Core.Option
use slot_booking.Base.{
  ℕ, ◌+◌, Bool, true, false, ◌&&◌, String, List, [], ◌∷◌, ◌++◌, Option, none, some, select, find_by,
  length, ltb, if◌then◌else◌,
}
use slot_booking.Base.Text.{str, str_eq, ◌+++◌}
use slot_booking.Models.{get_row}
use slot_booking.Effects.{Action, ok, ◌>>=◌, ◌>>◌, pure, raise, response_invalid, seconds}
use slot_booking.Tenancy.Rows.{Tenant, TenantMember, Tenancy, User, is_value, tenant_key}
use slot_booking.Tenancy.Session.{Platform, Site, Page, CachedList, now, read}
use slot_booking.Tenancy.Access.{window, page_of}

abbrev pub list_key : ℕ → ℕ → ℕ → String
list_key user skip limit = "tenants:list:" +++ str user +++ ":" +++ str skip +++ ":" +++ str limit

-- What the handler returns: a `PaginatedResponse`, or the dictionary that was cached.
pub data Listed : Type 0 where
  built : Page Tenant → Listed
  stored : CachedList → Listed

-- The tenants that a user's active memberships are joined with.
abbrev pub is_active_row : ℕ → TenantMember → Bool
is_active_row user m = is_value m.user_id user && m.is_active

abbrev pub tenant_rows : Option ℕ → List Tenant → List Tenant
tenant_rows none tenants = []
tenant_rows (some k) tenants = elim (get_row tenant_key k tenants) [ none ↦ [] | some t ↦ t ∷ [] ]

abbrev pub join_tenants : List Tenant → List TenantMember → List Tenant
join_tenants tenants [] = []
join_tenants tenants (m ∷ rows) = tenant_rows m.tenant_id tenants ++ join_tenants tenants rows

abbrev pub tenants_of : ℕ → Tenancy → List Tenant
tenants_of user db = join_tenants db.tenants (select (is_active_row user) db.members)

-- `await RedisCache.get(key)`: the entry of the key, while it is kept
abbrev pub lookup_list : String → ℕ → List (String × CachedList) → Option CachedList
lookup_list key time [] = none
lookup_list key time ((k, entry) ∷ entries) =
    if str_eq k key
    then if ltb time entry.kept_until then some entry else none
    else lookup_list key time entries

-- `json.dumps(value)` raises on the `datetime`s of a tenant, so only a list of none is written.
abbrev pub is_serializable : List Tenant → Bool
is_serializable [] = true
is_serializable (t ∷ items) = false

module _ {p : Platform} where
  unfoldable pub cached_list : String → Action (Site p) (Option CachedList)
  cached_list key = do
    time ← now
    entries ← λ w. (ok w.lists, w)
    pure (elim entries [ none ↦ none | some kept ↦ lookup_list key time kept ])

  -- `await RedisCache.set(key, value, ttl=120)`, which swallows every exception
  unfoldable pub set_list : String → List Tenant → ℕ → ℕ → ℕ → Action (Site p) (Unit {0})
  set_list key items total skip limit = do
    time ← now
    let entry : CachedList = record {
      items = items;
      total = total;
      skip = skip;
      limit = limit;
      kept_until = time + seconds 120;
    }
    λ w. (
      ok tt,
      record w {
        lists =
            if is_serializable items
            then Option.map (λ kept. (key, entry) ∷ kept) w.lists
            else w.lists;
      },
    )

  unfoldable pub build_list : ℕ → ℕ → User → Action (Site p) Listed
  build_list skip limit user = do
    rows ← read (tenants_of user.id)
    let items = window skip limit rows
    set_list (list_key user.id skip limit) items (length rows) skip limit
    pure (Listed.built (page_of items (length rows) skip limit))

  unfoldable pub list_my_tenants : ℕ → ℕ → User → Action (Site p) Listed
  list_my_tenants skip limit user = do
    cached ← cached_list (list_key user.id skip limit)
    elim cached [ some entry ↦ pure (Listed.stored entry) | none ↦ build_list skip limit user ]

  -- `response_model=PaginatedResponse[TenantResponse]`: a dictionary without the required
  -- `has_more` is no such response.
  unfoldable pub as_response : Listed → Action (Site p) (Page Tenant)
  as_response (Listed.built page) = pure page
  as_response (Listed.stored entry) = raise response_invalid

  unfoldable pub list_my_tenants_route : ℕ → ℕ → User → Action (Site p) (Page Tenant)
  list_my_tenants_route skip limit user = list_my_tenants skip limit user >>= as_response
