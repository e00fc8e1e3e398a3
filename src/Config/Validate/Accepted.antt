-- ===== src/Config/Validate/Accepted.antt =====
-- What is known of settings that the relay accepts.
use congee.Prelude.{
  ℕ, suc, Text, ==_iff, mem_text, mem_int, In, NoDup, All, trim_space, is_empty, map, ℤ, pos, ◌≤ℤ◌,
  List, [], ◌∷◌, Bool, true, false, not, Option, none, some, ◌≡◌, refl, subst, ◌⊎◌, inl, inr, arith,
  Bool-cases,
}
use congee.Config.Settings.{Url, Upstream, Settings, ConfigError}
use congee.Config.Validate.{
  first_error, first_of, check_upstreams, validate_nip77, validate_plugins, early_checks,
  limit_checks, nip_checks, with_retention, later_checks, after_early, validate_config, is_port,
  not_positive, below_zero,
}

first_error-none :
    (l : List (Bool × ConfigError))
    → first_error l ≡ none
    → All (λ (e : Bool × ConfigError). e.0 ≡ false) l
unfolding first_error
first_error-none [] h = tt
first_error-none ((bad, e) ∷ l) h = elim (Bool-cases bad) [
  | inl yes_bad ↦ cc (rw (yes_bad, first_error) at h)
  | inr fine ↦ (fine, first_error-none l (rw (fine, first_error) at h))
]

-- An upstream that passes its tests.
abbrev pub IsUpstream : Upstream → Type 0
IsUpstream u =
    (is_empty (trim_space u.name) ≡ false)
    × (is_empty u.filters ≡ false)
    × ((u.interval_seconds ≤ℤ pos 0) ⊎ (pos 60 ≤ℤ u.interval_seconds))

abbrev trimmed : Upstream → Text
trimmed u = trim_space u.name

mem_text_self : (s : Text) (l : List Text) → mem_text s (s ∷ l) ≡ true
mem_text_self s l = ground (arith, ==_iff s s)

mem_text-rest : (s t : Text) (l : List Text) → mem_text s (t ∷ l) ≡ false → mem_text s l ≡ false
mem_text-rest s t l h = ground arith

module _ (parse : Text → Option Url) where
  first_of-none {ℓ} :
      {A : Type ℓ} (a b : Option A) → first_of parse a b ≡ none → (a ≡ none) × (b ≡ none)
  first_of-none none b h = (refl, h)
  first_of-none (some x) b h = cc

  head_fine :
      (i : ℕ) (names : List Text) (u : Upstream) (us : List Upstream)
      → check_upstreams parse i names (u ∷ us) ≡ none
      → IsUpstream u
        × (mem_text (trimmed u) names ≡ false)
        × (check_upstreams parse (suc i) (trimmed u ∷ names) us ≡ none)
  unfolding check_upstreams
  head_fine i names u us h = ground arith

  -- The names that are seen later are none of those before, and come once.
  check_upstreams-none :
      (i : ℕ) (names : List Text) (us : List Upstream)
      → check_upstreams parse i names us ≡ none
      → All IsUpstream us
        × NoDup (map trimmed us)
        × ((n : Text) → In n (map trimmed us) → mem_text n names ≡ false)
  unfolding check_upstreams
  check_upstreams-none i names [] h = (tt, tt, λ n a. absurd a)
  check_upstreams-none i names (u ∷ us) h =
      let (fine, fresh, later) = head_fine i names u us h in
      let (all, distinct, apart) = check_upstreams-none (suc i) (trimmed u ∷ names) us later in
      (
        (fine, all),
        (λ a. cc (mem_text_self (trimmed u) names, apart (trimmed u) a), distinct),
        λ n a. elim a [
          | inl e ↦ subst (λ k. mem_text k names ≡ false) e fresh
          | inr b ↦ mem_text-rest n (trimmed u) names (apart n b)
        ],
      )

-- Settings that the relay starts with: each list of numbers is in its range, and the NIPs need one
-- another as they do.
pub record IsAccepted (c : Settings) : Type 0 where
  pub ports : All (λ p. (pos 1 ≤ℤ p) × (p ≤ℤ pos 65535)) (c.relay_port ∷ c.admin_port ∷ [])
  pub retention :
      (pos 1 ≤ℤ c.relay_bucket_retention_days) × (c.relay_bucket_retention_days ≤ℤ pos 3650)
  pub positive :
      All
        (λ a. pos 1 ≤ℤ a)
        (c.audit_retention_days ∷ c.events_per_minute_per_connection
          ∷ c.bytes_per_second_per_connection ∷ c.reqs_per_minute_per_connection
          ∷ c.messages_per_minute_per_ip ∷ c.max_open ∷ c.max_subscriptions_per_connection
          ∷ c.max_filters_per_req ∷ c.connections_per_minute_per_ip ∷ c.read_deadline_seconds
          ∷ c.write_deadline_seconds ∷ c.max_message_bytes ∷ c.max_subscription_id_length ∷ [])
  pub not_negative :
      All
        (λ a. pos 0 ≤ℤ a)
        (c.max_open_per_ip ∷ c.idle_no_event_no_sub_seconds ∷ c.created_at_skew_seconds ∷ [])
  pub mandatory : (mem_int (pos 1) c.enabled ≡ true) × (mem_int (pos 11) c.enabled ≡ true)
  pub gift_wraps : mem_int (pos 17) c.enabled ≡ true → mem_int (pos 42) c.enabled ≡ true
  pub upstreams :
      mem_int (pos 77) c.enabled ≡ true
      → All IsUpstream c.upstreams × NoDup (map trimmed c.upstreams)

port_range : (p : ℤ) → not (is_port p) ≡ false → (pos 1 ≤ℤ p) × (p ≤ℤ pos 65535)
port_range p h = ground arith

at_least_one : (a : ℤ) → not_positive a ≡ false → pos 1 ≤ℤ a
at_least_one a h = ground arith

at_least_zero : (a : ℤ) → below_zero a ≡ false → pos 0 ≤ℤ a
at_least_zero a h = ground arith

module _ (parse : Text → Option Url) (c : Settings) where
  validate_nip77-upstreams :
      validate_nip77 parse c ≡ none
      → mem_int (pos 77) c.enabled ≡ true
      → All IsUpstream c.upstreams × NoDup (map trimmed c.upstreams)
  unfolding validate_nip77
  validate_nip77-upstreams h on =
      let (_, later) = first_of-none parse _ _ (rw (validate_nip77, on) at h) in
      let (all, distinct, _) = check_upstreams-none parse 0 [] c.upstreams later in (all, distinct)

  with_retention-same :
      ((with_retention parse c).relay_port ≡ c.relay_port)
      × ((with_retention parse c).admin_port ≡ c.admin_port)
      × ((with_retention parse c).audit_retention_days ≡ c.audit_retention_days)
  unfolding with_retention
  with_retention-same = ground arith

  with_retention-positive : pos 1 ≤ℤ (with_retention parse c).relay_bucket_retention_days
  unfolding with_retention
  with_retention-positive = ground arith

  early_lem :
      first_error (early_checks parse c) ≡ none
      → All (λ p. (pos 1 ≤ℤ p) × (p ≤ℤ pos 65535)) (c.relay_port ∷ c.admin_port ∷ [])
        × (pos 1 ≤ℤ c.audit_retention_days)
  unfolding early_checks
  early_lem h =
      let (relay, (_, (admin, (_, (_, (_, (_, (_, (audit, _))))))))) =
        first_error-none (early_checks parse c) h in
      ((port_range c.relay_port relay, (port_range c.admin_port admin, tt)), at_least_one _ audit)

  limit_lem :
      first_error (limit_checks parse c) ≡ none
      → (c.relay_bucket_retention_days ≤ℤ pos 3650)
        × All
            (λ a. pos 1 ≤ℤ a)
            (c.events_per_minute_per_connection ∷ c.bytes_per_second_per_connection
              ∷ c.reqs_per_minute_per_connection ∷ c.messages_per_minute_per_ip ∷ c.max_open
              ∷ c.max_subscriptions_per_connection ∷ c.max_filters_per_req
              ∷ c.connections_per_minute_per_ip ∷ c.read_deadline_seconds ∷ c.write_deadline_seconds
              ∷ c.max_message_bytes ∷ c.max_subscription_id_length ∷ [])
        × All (λ a. pos 0 ≤ℤ a) (c.max_open_per_ip ∷ c.idle_no_event_no_sub_seconds ∷ [])
  unfolding limit_checks
  limit_lem h =
      let (
        bucket,
        (
          events,
          (
            bytes,
            (
              reqs,
              (
                messages,
                (
                  open_,
                  (
                    per_ip,
                    (idle, (subs, (filters, (conns, (read, (write, (message, (id_length, _)))))))),
                  ),
                ),
              ),
            ),
          ),
        ),
      ) =
        first_error-none (limit_checks parse c) h in
      (
        ground arith,
        (
          at_least_one _ events,
          (
            at_least_one _ bytes,
            (
              at_least_one _ reqs,
              (
                at_least_one _ messages,
                (
                  at_least_one _ open_,
                  (
                    at_least_one _ subs,
                    (
                      at_least_one _ filters,
                      (
                        at_least_one _ conns,
                        (
                          at_least_one _ read,
                          (
                            at_least_one _ write,
                            (at_least_one _ message, (at_least_one _ id_length, tt)),
                          ),
                        ),
                      ),
                    ),
                  ),
                ),
              ),
            ),
          ),
        ),
        (at_least_zero _ per_ip, (at_least_zero _ idle, tt)),
      )

  nip_lem :
      first_error (nip_checks parse c) ≡ none
      → (pos 0 ≤ℤ c.created_at_skew_seconds)
        × ((mem_int (pos 1) c.enabled ≡ true) × (mem_int (pos 11) c.enabled ≡ true))
        × (mem_int (pos 17) c.enabled ≡ true → mem_int (pos 42) c.enabled ≡ true)
  unfolding nip_checks
  nip_lem h =
      let (_, (_, (_, (one, (eleven, (_, (_, (skew, (_, (wraps, _)))))))))) =
        first_error-none (nip_checks parse c) h in
      (at_least_zero _ skew, (ground arith, ground arith), λ on. ground arith)

module _ (parse : Text → Option Url) where
  later_lem :
      (c : Settings)
      → later_checks parse c ≡ none
      → (first_error (limit_checks parse c) ≡ none)
        × (first_error (nip_checks parse c) ≡ none)
        × (validate_nip77 parse c ≡ none)
  unfolding later_checks
  later_lem c h =
      let nip77 = first_of parse (validate_nip77 parse c) (validate_plugins parse c) in
      let (limits, rest) =
        first_of-none parse (first_error (limit_checks parse c))
          (first_of parse (first_error (nip_checks parse c)) nip77) h in
      let (nips, rest') = first_of-none parse (first_error (nip_checks parse c)) nip77 rest in
      (
        limits,
        nips,
        (first_of-none parse (validate_nip77 parse c) (validate_plugins parse c) rest').0,
      )

  after_early-IsAccepted :
      (c : Settings) (o : Option ConfigError)
      → first_error (early_checks parse c) ≡ o
      → (after_early parse c o).1 ≡ none
      → IsAccepted (after_early parse c o).0
  unfolding after_early
  after_early-IsAccepted c (some e) q h = cc
  after_early-IsAccepted c none q h =
      let d = with_retention parse c in
      let (relay, admin, days) = with_retention-same parse c in
      let (limits, nips, sync) = later_lem d h in
      let (ports, audit) = early_lem parse c q in
      let (bucket, positive, not_negative) = limit_lem parse d limits in
      let (skew, mandatory, wraps) = nip_lem parse d nips in
      record {
        ports = rw (relay, admin) ports;
        retention = (with_retention-positive parse c, bucket);
        positive = (rw days audit, positive);
        not_negative = (not_negative.0, (not_negative.1.0, (skew, tt)));
        mandatory = mandatory;
        gift_wraps = wraps;
        upstreams = validate_nip77-upstreams parse d sync;
      }

  -- Settings that `Validate` accepts are, as it leaves them, in every range that the relay counts on:
  -- ports between 1 and 65535, a retention of metrics between 1 and 3650 days, limits that are
  -- positive or not negative, the mandatory NIPs on, and NIP 42 wherever NIP 17 is; and, where NIP 77
  -- is on, its upstreams have distinct names that are not empty, filters, and no interval between 1
  -- and 59 seconds.
  pub validate_config-IsAccepted :
      (c : Settings) → (validate_config parse c).1 ≡ none → IsAccepted (validate_config parse c).0
  unfolding validate_config
  validate_config-IsAccepted c h =
      after_early-IsAccepted c (first_error (early_checks parse c)) refl h
