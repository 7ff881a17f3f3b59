-- ===== src/QueryTopic.antt =====
-- DataModel/query_topics.h: the topics, and the tables that batched write queries go to.
use services_backend.Common.{
  ℕ, ◌≡◌, refl, Bool, true, false, Option, none, some, ◌==◌, if◌then◌else◌, arith,
}

pub data QueryTopic : Type 0 where
  alarm dev_config base_config runmode_config cached_config calibration : QueryTopic
  logging monitoring rootplot plotlyplot generic : QueryTopic

-- `query_topic{c}`; `none` is a value of the enum with no enumerator, the `default` of a switch.
unfoldable pub query_topic : ℕ → Option QueryTopic
query_topic c =
    if c == b'A'
    then some alarm
    else if c == b'D'
    then some dev_config
    else if c == b'B'
    then some base_config
    else if c == b'R'
    then some runmode_config
    else if c == b'K'
    then some cached_config
    else if c == b'C'
    then some calibration
    else if c == b'L'
    then some logging
    else if c == b'M'
    then some monitoring
    else if c == b'T'
    then some rootplot
    else if c == b'P'
    then some plotlyplot
    else if c == b'Q'
    then some generic
    else none

-- The seven buffers of a `QueryBatch`, one for each table; an `out_buffer` points to one of them.
pub data Table : Type 0 where
  alarms devconfigs base_configs runmode_configs calibrations plotlyplots rootplots : Table

abbrev pub table_eq : Table → Table → Bool
table_eq alarms alarms = true
table_eq devconfigs devconfigs = true
table_eq base_configs base_configs = true
table_eq runmode_configs runmode_configs = true
table_eq calibrations calibrations = true
table_eq plotlyplots plotlyplots = true
table_eq rootplots rootplots = true
table_eq _ _ = false

-- A member of each table in one record field: writing one leaves the others.
abbrev pub update {ℓ} : {A : Type ℓ} → (Table → A) → Table → A → Table → A
update f t v s = if table_eq t s then v else f s

pub table_eq_refl : (t : Table) → table_eq t t ≡ true
table_eq_refl alarms = refl
table_eq_refl devconfigs = refl
table_eq_refl base_configs = refl
table_eq_refl runmode_configs = refl
table_eq_refl calibrations = refl
table_eq_refl plotlyplots = refl
table_eq_refl rootplots = refl

pub table_eq→eq : (s t : Table) → table_eq s t ≡ true → s ≡ t
table_eq→eq alarms t h = ground arith
table_eq→eq devconfigs t h = ground arith
table_eq→eq base_configs t h = ground arith
table_eq→eq runmode_configs t h = ground arith
table_eq→eq calibrations t h = ground arith
table_eq→eq plotlyplots t h = ground arith
table_eq→eq rootplots t h = ground arith
