-- ===== src/Tenancy/Session.antt =====
-- Where the tenant routes run: the session over the tenants' tables, the Casbin enforcer of
-- backend/src/apps/iam/casbin_enforcer.py, the cached lists and the captured events.
use slot_booking.Base.{
  ℕ, suc, String, Bool, true, false, if◌then◌else◌, List, [], ◌∷◌, ◌++◌, ◌≡◌, ◌≢◌, Option,
}
use mathlib.Core.Option
use slot_booking.Base.Strip.{strip}
use slot_booking.Base.Text.{str, str_eq}
use slot_booking.Effects.{Action, Result, ok, err, client_error}
use slot_booking.Tenancy.Rows.{Tenancy, Tenant, TenantRole}

-- `g, <user>, <role>, <domain>`
pub record Grouping : Type 0 where
  pub user : String
  pub role : TenantRole
  pub domain : String

-- What is outside the repository: Casbin's enforcer with its adapter, whose calls return `true` or
-- raise, the database's `COMMIT`, which may fail, its sequences, and `uuid4`.
pub record Platform : Type 1 where
  pub Enforcer : Type 0
  pub add_role_for_user_in_domain : Grouping → Enforcer → Bool × Enforcer
  pub remove_grouping_policy : Grouping → Enforcer → Bool × Enforcer
  pub has_grouping : Grouping → Enforcer → Bool
  pub Connection : Type 0
  pub try_commit : Connection → Bool × Connection
  -- whether an attribute of a row can be read after `rollback()`, which expires the session's rows: not
  -- in an asynchronous session of SQLAlchemy, where the read raises `MissingGreenlet`
  pub reads_expired : Bool
  pub new_id : List ℕ → ℕ
  pub uuid4 : ℕ → String

-- What Casbin documents: a call adds or removes the one grouping it names, and one that raises
-- leaves the stored groupings as they were.
pub record EnforcerLaws (p : Platform) : Type 0 where
  pub added :
      (g : Grouping) (e : p.Enforcer)
      → (p.add_role_for_user_in_domain g e).0 ≡ true
      → p.has_grouping g (p.add_role_for_user_in_domain g e).1 ≡ true
  pub not_added :
      (g : Grouping) (e : p.Enforcer)
      → (p.add_role_for_user_in_domain g e).0 ≡ false
      → p.has_grouping g (p.add_role_for_user_in_domain g e).1 ≡ p.has_grouping g e
  pub added_other :
      (g h : Grouping) (e : p.Enforcer)
      → h ≢ g
      → p.has_grouping h (p.add_role_for_user_in_domain g e).1 ≡ p.has_grouping h e
  pub removed :
      (g : Grouping) (e : p.Enforcer)
      → (p.remove_grouping_policy g e).0 ≡ true
      → p.has_grouping g (p.remove_grouping_policy g e).1 ≡ false
  pub not_removed :
      (g : Grouping) (e : p.Enforcer)
      → (p.remove_grouping_policy g e).0 ≡ false
      → p.has_grouping g (p.remove_grouping_policy g e).1 ≡ p.has_grouping g e
  pub removed_other :
      (g h : Grouping) (e : p.Enforcer)
      → h ≢ g
      → p.has_grouping h (p.remove_grouping_policy g e).1 ≡ p.has_grouping h e

-- What `analytics.capture` is called with.
pub data TenantEvent : Type 0 where
  tenant_created : ℕ → ℕ → String → String → TenantEvent
  tenant_member_invited : ℕ → ℕ → String → TenantRole → TenantEvent
  tenant_member_joined : ℕ → ℕ → String → TenantRole → TenantEvent
  tenant_member_removed : ℕ → ℕ → ℕ → TenantEvent

-- The dictionary under a key of `tenants:list:*`, and until when Redis keeps it.
pub record CachedList : Type 0 where
  pub items : List Tenant
  pub total : ℕ
  pub skip : ℕ
  pub limit : ℕ
  pub kept_until : ℕ

-- One page of a list, as `PaginatedResponse` has it.
pub record Page (A : Type 0) : Type 0 where
  pub items : List A
  pub total : ℕ
  pub skip : ℕ
  pub limit : ℕ
  pub has_more : Bool

-- `db` is the session's view and `saved` what is committed. The clock gives a time for each reading.
-- `lists` are the cached answers of `list_my_tenants`, by their keys, or `none` where
-- `RedisCache.get_client()` gives no client.
pub record Site (p : Platform) : Type 0 where
  pub db : Tenancy
  pub saved : Tenancy
  pub enforcer : p.Enforcer
  pub connection : p.Connection
  pub clock : ℕ → ℕ
  pub reads : ℕ
  pub drawn : ℕ
  pub lists : Option (List (String × CachedList))
  pub captured : List TenantEvent

-- `(domain or "").strip() or GLOBAL_DOMAIN`
unfoldable pub normalize_domain : String → String
normalize_domain domain = if str_eq (strip domain) "" then "global" else strip domain

-- The grouping of a user's role in a tenant.
abbrev pub grouping : ℕ → TenantRole → String → Grouping
grouping user role slug = record { user = str user; role = role; domain = normalize_domain slug }

abbrev done_or_raised : Bool → Result (Unit {0})
done_or_raised done = if done then ok tt else err client_error

module _ {p : Platform} where
  abbrev pub now : Action (Site p) ℕ
  now w = (ok (w.clock w.reads), record w { reads = suc w.reads })

  abbrev pub read : {A : Type 0} → (Tenancy → A) → Action (Site p) A
  read f w = (ok (f w.db), w)

  abbrev pub change : (Tenancy → Tenancy) → Action (Site p) (Unit {0})
  change f w = (ok tt, record w { db = f w.db })

  -- `await db.commit()`, which leaves what is committed as it was where it raises
  unfoldable pub commit_site : Action (Site p) (Unit {0})
  commit_site w =
      let (done, c) = p.try_commit w.connection in
      (done_or_raised done, record w { connection = c; saved = if done then w.db else w.saved })

  abbrev pub rollback : Action (Site p) (Unit {0})
  rollback w = (ok tt, record w { db = w.saved })

  unfoldable pub add_role_for_user : ℕ → TenantRole → String → Action (Site p) (Unit {0})
  add_role_for_user user role slug w =
      let (done, e) = p.add_role_for_user_in_domain (grouping user role slug) w.enforcer in
      (done_or_raised done, record w { enforcer = e })

  unfoldable pub remove_role_for_user : ℕ → TenantRole → String → Action (Site p) (Unit {0})
  remove_role_for_user user role slug w =
      let (done, e) = p.remove_grouping_policy (grouping user role slug) w.enforcer in
      (done_or_raised done, record w { enforcer = e })

  -- `await RedisCache.clear_pattern("tenants:list:*")`
  abbrev pub clear_lists : Action (Site p) (Unit {0})
  clear_lists w = (ok tt, record w { lists = Option.map (λ kept. []) w.lists })

  abbrev pub capture : TenantEvent → Action (Site p) (Unit {0})
  capture event w = (ok tt, record w { captured = w.captured ++ event ∷ [] })

  -- `try: first … except Exception: undo; raise`
  abbrev pub on_error :
      Action (Site p) (Unit {0}) → Action (Site p) (Unit {0}) → Action (Site p) (Unit {0})
  on_error undo first w = elim (first w).0 [
    | ok a ↦ (ok a, (first w).1)
    | err e ↦ (err e, (undo (first w).1).1)
  ]

  -- `try: first … except Exception: pass` after a rollback, where `first` reads rows for its arguments
  abbrev pub compensate : Action (Site p) (Unit {0}) → Action (Site p) (Unit {0})
  compensate first w = if p.reads_expired then (ok tt, (first w).1) else (ok tt, w)

  -- A request: a new session sees what is committed, and what it does not commit is lost.
  unfoldable pub run_site : {A : Type 0} → Action (Site p) A → Action (Site p) A
  run_site handler w =
      let (r, w') = handler (record w { db = w.saved }) in (r, record w' { db = w'.saved })
