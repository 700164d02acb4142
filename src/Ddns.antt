-- ===== src/Ddns.antt =====
-- service/singleton/ddns.go, model/ddns.go, the retries of pkg/ddns/ddns.go and the handlers of
-- cmd/dashboard/controller/ddns.go: the profiles of dynamic DNS. The conversion of a domain to ASCII
-- and the outcome of each attempt to set a record are arguments, as is what the database returns.
pub mod Providers
pub mod Profiles
mod Tests
use nezha_diff.Base.{
  ℕ, zero, suc, Bool, true, false, not, ◌&&◌, ◌||◌, Option, none, some, String, List, [], ◌∷◌,
  nat_eq, string_eq, ◌==◌, nat_beq, ltb, if◌then◌else◌, ◌+◌, ◌≡◌,
}
use nezha_diff.GoMap.{GoMap, lookup, insert, remove, values}
use nezha_diff.Sort.{sort_func, by_key}
use nezha_diff.Common.{CommonInterface, User, has_permission, check_permission}
use nezha_diff.Host.{Ip}
use nezha_diff.Crons.Handlers.{get_uid}

-- model.DDNSProfile
pub record DdnsProfile : Type 0 where
  pub id : ℕ
  pub user_id : ℕ
  pub enable_ipv4 : Option Bool
  pub enable_ipv6 : Option Bool
  pub max_retries : ℕ
  pub name : String
  pub provider : String
  pub access_id : String
  pub access_secret : String
  pub webhook_url : String
  pub webhook_method : ℕ
  pub webhook_request_type : ℕ
  pub webhook_request_body : String
  pub webhook_headers : String
  pub domains : List String

instance abbrev pub ddns_common : CommonInterface DdnsProfile
ddns_common = record { get_id = λ p. p.id; get_user_id = λ p. p.user_id }

pub record DdnsClass : Type 0 where
  pub list : GoMap ℕ DdnsProfile
  pub sorted_list : List DdnsProfile

-- The five setters, with the fields of the profile that they are made of.
pub data Setter : Type 0 where
  dummy : Setter
  webhook : DdnsProfile → Setter
  cloudflare he : String → Setter
  tencentcloud : String → String → Setter

-- ddns.Provider
pub record Provider : Type 0 where
  pub ddns_profile : DdnsProfile
  pub ip_addrs : Ip
  pub setter : Setter

unfoldable pub sort_list : DdnsClass → DdnsClass
sort_list c = record c { sorted_list = sort_func (by_key (λ p. p.id)) (values c.list) }

unfoldable pub load_ddns : List DdnsProfile → GoMap ℕ DdnsProfile → GoMap ℕ DdnsProfile
load_ddns [] list = list
load_ddns (p ∷ ps) list = load_ddns ps (insert p.id p list)

unfoldable pub new_ddns_class : List DdnsProfile → DdnsClass
new_ddns_class rows = record { list = load_ddns rows []; sorted_list = rows }

unfoldable pub update : DdnsClass → DdnsProfile → DdnsClass
update c p = sort_list (record c { list = insert p.id p c.list })

unfoldable pub delete_each : DdnsClass → List ℕ → DdnsClass
delete_each c [] = c
delete_each c (id ∷ ids) = delete_each (record c { list = remove id c.list }) ids

unfoldable pub delete : DdnsClass → List ℕ → DdnsClass
delete c ids = sort_list (delete_each c ids)

-- The first loop of `GetDDNSProvidersFromProfiles`; `none` is the error.
unfoldable pub find_profiles : DdnsClass → List ℕ → Option (List DdnsProfile)
find_profiles c [] = some []
find_profiles c (id ∷ ids) =
    let rest = find_profiles c ids in
    elim (lookup id c.list) [
      | none ↦ none
      | some p ↦ elim rest [ none ↦ none | some ps ↦ some (p ∷ ps) ]
    ]

-- The switch over the name of the provider.
unfoldable pub setter_of : DdnsProfile → Option Setter
setter_of p =
    if p.provider == "dummy"
    then some dummy
    else if p.provider == "webhook"
    then some (webhook p)
    else if p.provider == "cloudflare"
    then some (cloudflare p.access_secret)
    else if p.provider == "tencentcloud"
    then some (tencentcloud p.access_id p.access_secret)
    else if p.provider == "he"
    then some (he p.access_secret)
    else none

unfoldable pub make_providers : Ip → List DdnsProfile → Option (List Provider)
make_providers ip [] = some []
make_providers ip (p ∷ ps) =
    let rest = make_providers ip ps in
    elim (setter_of p) [
      | none ↦ none
      | some s ↦ elim rest [
        | none ↦ none
        | some others ↦ some (record { ddns_profile = p; ip_addrs = ip; setter = s } ∷ others)
      ]
    ]

unfoldable pub get_ddns_providers_from_profiles : DdnsClass → List ℕ → Ip → Option (List Provider)
get_ddns_providers_from_profiles c ids ip = elim (find_profiles c ids) [
  | none ↦ none
  | some ps ↦ make_providers ip ps
]

-- for retries := range max { if attempt succeeds { break } }: the number of attempts made, and
-- whether the last of them succeeded.
unfoldable pub retry : (ℕ → Bool) → ℕ → ℕ → ℕ × Bool
retry attempt retries zero = (retries, false)
retry attempt retries (suc left) =
    let rest = retry attempt (suc retries) left in
    if attempt retries then (suc retries, true) else rest

-- Provider.UpdateDomain: each domain with its number of attempts and its outcome.
unfoldable pub update_domains : (String → ℕ → Bool) → ℕ → List String → List (String × (ℕ × Bool))
update_domains attempt max [] = []
update_domains attempt max (domain ∷ domains) =
    (domain, retry (attempt domain) 0 max) ∷ update_domains attempt max domains

unfoldable pub update_domain :
    (String → ℕ → Bool) → Provider → List String → List (String × (ℕ × Bool))
update_domain attempt provider override_domains = elim override_domains [
  | [] ↦ update_domains attempt provider.ddns_profile.max_retries provider.ddns_profile.domains
  | d ∷ ds ↦ update_domains attempt provider.ddns_profile.max_retries (d ∷ ds)
]

-- model.DDNSForm
pub record DdnsForm : Type 0 where
  pub max_retries : ℕ
  pub enable_ipv4 : Bool
  pub enable_ipv6 : Bool
  pub name : String
  pub provider : String
  pub domains : List String
  pub access_id : String
  pub access_secret : String
  pub webhook_url : String
  pub webhook_method : ℕ
  pub webhook_request_type : ℕ
  pub webhook_request_body : String
  pub webhook_headers : String

unfoldable pub fill_ddns : DdnsForm → DdnsProfile → DdnsProfile
fill_ddns df p = record p {
  name = df.name;
  enable_ipv4 = some df.enable_ipv4;
  enable_ipv6 = some df.enable_ipv6;
  max_retries = df.max_retries;
  provider = df.provider;
  domains = df.domains;
  access_id = df.access_id;
  access_secret = df.access_secret;
  webhook_url = df.webhook_url;
  webhook_method = df.webhook_method;
  webhook_request_type = df.webhook_request_type;
  webhook_request_body = df.webhook_request_body;
  webhook_headers = df.webhook_headers;
}

-- The loop over the domains, with idna.Lookup.ToASCII.
unfoldable pub to_ascii_all : (String → Option String) → List String → Option (List String)
to_ascii_all to_ascii [] = some []
to_ascii_all to_ascii (d ∷ ds) =
    let rest = to_ascii_all to_ascii ds in
    elim (to_ascii d) [
      | none ↦ none
      | some valid ↦ elim rest [ none ↦ none | some valids ↦ some (valid ∷ valids) ]
    ]

abbrev pub zero_profile : DdnsProfile
zero_profile = record {
  id = 0;
  user_id = 0;
  enable_ipv4 = none;
  enable_ipv6 = none;
  max_retries = 0;
  name = "";
  provider = "";
  access_id = "";
  access_secret = "";
  webhook_url = "";
  webhook_method = 0;
  webhook_request_type = 0;
  webhook_request_body = "";
  webhook_headers = "";
  domains = [];
}

unfoldable pub create_ddns :
    User → (String → Option String) → DdnsForm → Option ℕ → DdnsClass → Option ℕ × DdnsClass
create_ddns auth to_ascii df created c =
    if ltb df.max_retries 1 || ltb 10 df.max_retries
    then (none, c)
    else elim (to_ascii_all to_ascii df.domains) [
      | none ↦ (none, c)
      | some ds ↦ elim created [
        | none ↦ (none, c)
        | some id ↦
            let p = fill_ddns df (record zero_profile { user_id = get_uid auth }) in
            (some id, update c (record p { id = id; domains = ds }))
      ]
    ]

unfoldable pub update_ddns :
    User
    → (String → Option String)
    → DdnsForm
    → Option DdnsProfile
    → Bool
    → DdnsClass
    → Bool × DdnsClass
update_ddns auth to_ascii df found saved c =
    if ltb df.max_retries 1 || ltb 10 df.max_retries then (false, c) else elim found [
      | none ↦ (false, c)
      | some row ↦
          if not (has_permission (some auth) row)
          then (false, c)
          else elim (to_ascii_all to_ascii df.domains) [
            | none ↦ (false, c)
            | some ds ↦
                if saved
                then (true, update c (record (fill_ddns df row) { domains = ds }))
                else (false, c)
          ]
    ]

unfoldable pub batch_delete_ddns : User → List ℕ → Bool → DdnsClass → Bool × DdnsClass
batch_delete_ddns auth ids deleted c =
    if not (check_permission (some auth) ids c.list)
    then (false, c)
    else if deleted
    then (true, delete c ids)
    else (false, c)
