-- ===== src/States/Oracle/Ring.antt =====
-- The ring of states/oracle.rs: it stays in bounds, a new observation extends the newest one, and
-- all others stay.
use solana_dex.Base.{
  ℕ, ◌+◌, ◌-◌, ◌*◌, ◌%◌, ◌≤◌, ◌<◌, ◌≡◌, ◌≢◌, refl, Bool, true, some, ok, arith, length, get_elem?,
  set, length-set, get_elem?-set_ne, u128_mod, >>=-elim, ok-injective, subst, plus, checked_mul,
  lt→ltb, List, unwrap, if-cases, inl, inr, ltb, sym, ◌∙◌,
}
use solana_dex.Keys.{observation_num, observation_update_duration_default}
use solana_dex.States.Oracle.{
  Observation, ObservationState, read, write, next_index, wrapping_add, append, update_initialized,
  update_first, update,
}

pub record IsValid (s : ObservationState) : Type 0 where
  pub full : length s.observations ≡ observation_num
  pub in_bounds : s.observation_index < observation_num

-- The place after `i` in the ring.
abbrev pub succ_index : ℕ → ℕ
succ_index i = (i + 1) % observation_num

-- The observation that extends `last` by `d` seconds at the prices `p₀` and `p₁`.
abbrev pub extended : Observation → ℕ → ℕ → ℕ → Observation
extended last now p₀ p₁ =
    let d = now - last.block_timestamp in
    record {
      block_timestamp = now;
      cumulative_token_0_price_x32 = wrapping_add last.cumulative_token_0_price_x32 (p₀ * d);
      cumulative_token_1_price_x32 = wrapping_add last.cumulative_token_1_price_x32 (p₁ * d);
    }

next_index-succ_index : (i : ℕ) → i < observation_num → next_index i ≡ ok (succ_index i)
unfolding next_index plus
next_index-succ_index i h = ground arith

read-eq-ok :
    (s : ObservationState) {o : Observation}
    → get_elem? s.observations s.observation_index ≡ some o
    → read s.observations s.observation_index ≡ ok o
unfolding read
read-eq-ok s e = rw (e, read)

append-eq-ok :
    (s : ObservationState) (last : Observation) (now p₀ p₁ : ℕ)
    → IsValid s
    → p₀ * (now - last.block_timestamp) < u128_mod
    → p₁ * (now - last.block_timestamp) < u128_mod
    → append s last now (now - last.block_timestamp) p₀ p₁
      ≡ ok (record s {
        observations =
            set s.observations (succ_index s.observation_index) (extended last now p₀ p₁);
        observation_index = succ_index s.observation_index;
      })
unfolding append write checked_mul
append-eq-ok s last now p₀ p₁ v h₀ h₁ =
    let bound : succ_index s.observation_index < length s.observations = omega (arith, v.full) in
    rw (
      lt→ltb _ _ h₀,
      lt→ltb _ _ h₁,
      next_index-succ_index s.observation_index v.in_bounds,
      lt→ltb _ _ bound,
    )

-- From an initialized ring that is full and in bounds, fifteen seconds or more after its newest
-- observation and while the prices times the time fit in `u128`, an update succeeds and writes, in
-- the next place of the ring, the newest observation extended by the prices times the time, modulo
-- 2 ^ 128.
pub update_late :
    (s : ObservationState) (now p₀ p₁ : ℕ) {last : Observation}
    → IsValid s
    → s.initialized ≡ true
    → get_elem? s.observations s.observation_index ≡ some last
    → last.block_timestamp + observation_update_duration_default ≤ now
    → p₀ * (now - last.block_timestamp) < u128_mod
    → p₁ * (now - last.block_timestamp) < u128_mod
    → update s now p₀ p₁
      ≡ ok (record s {
        observations =
            set s.observations (succ_index s.observation_index) (extended last now p₀ p₁);
        observation_index = succ_index s.observation_index;
      })
unfolding update update_initialized
update_late s now p₀ p₁ {last} v init e late h₀ h₁ =
    ground (arith, read-eq-ok s e, append-eq-ok s last now p₀ p₁ v h₀ h₁)

write-eq-ok :
    (obs : List Observation) (i : ℕ) (o : Observation) {obs' : List Observation}
    → write obs i o ≡ ok obs'
    → (obs' ≡ set obs i o) × (i < length obs)
unfolding write
write-eq-ok obs i o h = ground arith

-- What every run of `update` keeps: the ring stays full and in bounds, it is initialized from then
-- on, and no place changes but the newest.
pub record IsUpdateOf (s t : ObservationState) : Type 0 where
  pub valid : IsValid t
  pub initialized : t.initialized ≡ true
  pub pool_id : t.pool_id ≡ s.pool_id
  pub others :
      (j : ℕ) → j ≢ t.observation_index → get_elem? t.observations j ≡ get_elem? s.observations j

-- The newest place is written, wherever it is.
written :
    (s : ObservationState) (b : Bool) (i : ℕ) (o : Observation)
    → b ≡ true
    → IsValid s
    → i < length s.observations
    → IsUpdateOf s
        (record s { initialized = b; observation_index = i; observations = set s.observations i o })
written s b i o on v h = record {
  valid = record {
    full = length-set s.observations i o ∙ v.full;
    in_bounds = omega (arith, v.full);
  };
  initialized = on;
  pool_id = refl;
  others = λ j ne. get_elem?-set_ne s.observations i j o (λ e. ne (sym e));
}

update_first-IsUpdateOf :
    (s : ObservationState) (now : ℕ) {t : ObservationState}
    → IsValid s
    → update_first s now ≡ ok t
    → IsUpdateOf s t
unfolding update_first
update_first-IsUpdateOf s now v h =
    >>=-elim (write s.observations s.observation_index _) _ h λ obs e h.
      let (eq, bound) = write-eq-ok s.observations s.observation_index _ e in
      subst (IsUpdateOf s) (ok-injective h)
        (rw eq (written s true s.observation_index _ refl v bound))

append-IsUpdateOf :
    (s : ObservationState) (last : Observation) (now d p₀ p₁ : ℕ) {t : ObservationState}
    → IsValid s
    → s.initialized ≡ true
    → append s last now d p₀ p₁ ≡ ok t
    → IsUpdateOf s t
unfolding append
append-IsUpdateOf s last now d p₀ p₁ v init h =
    >>=-elim (unwrap (checked_mul u128_mod p₀ d)) _ h λ d₀ _ h.
      >>=-elim (unwrap (checked_mul u128_mod p₁ d)) _ h λ d₁ _ h.
        >>=-elim (next_index s.observation_index) _ h λ next _ h.
          >>=-elim (write s.observations next _) _ h λ obs e h.
            let (eq, bound) = write-eq-ok s.observations next _ e in
            subst (IsUpdateOf s) (ok-injective h)
              (rw eq (written s s.initialized next _ init v bound))

update_initialized-IsUpdateOf :
    (s : ObservationState) (now p₀ p₁ : ℕ) {t : ObservationState}
    → IsValid s
    → s.initialized ≡ true
    → update_initialized s now p₀ p₁ ≡ ok t
    → IsUpdateOf s t
unfolding update_initialized
update_initialized-IsUpdateOf s now p₀ p₁ v init h =
    >>=-elim (read s.observations s.observation_index) _ h λ last _ h.
      let d : ℕ = now - last.block_timestamp in
      elim (if-cases (ltb d observation_update_duration_default) _ _ h) [
        | inl (early, e) ↦
            subst (IsUpdateOf s) (ok-injective e)
              (record { valid = v; initialized = init; pool_id = refl; others = λ j ne. refl })
        | inr (late, e) ↦ append-IsUpdateOf s last now d p₀ p₁ v init e
      ]

-- From a ring that is full and in bounds, an update that succeeds, the first, an early or a late
-- one, leaves a ring that is full, in bounds and initialized, of the same pool, and changes no
-- observation but the newest.
pub update-IsUpdateOf :
    (s : ObservationState) (now p₀ p₁ : ℕ) {t : ObservationState}
    → IsValid s
    → update s now p₀ p₁ ≡ ok t
    → IsUpdateOf s t
unfolding update
update-IsUpdateOf s now p₀ p₁ v h = elim (if-cases s.initialized _ _ h) [
  | inl (init, e) ↦ update_initialized-IsUpdateOf s now p₀ p₁ v init e
  | inr (fresh, e) ↦ update_first-IsUpdateOf s now v e
]
