-- ===== src/Gip/Updates.antt =====
-- The updates of the global information page in vboxdrv/SUPDrv.c: what supdrvGipUpdate and
-- supdrvGipUpdatePerCpu do to the entry of one CPU and to the frequency.
use virtualbox_drv.Common.{
  ℕ, ◌+◌, ◌*◌, ◌/◌, ◌%◌, ◌^◌, ◌≡◌, ◌≢◌, ◌≤◌, ◌<◌, ◌⊎◌, refl, inl, inr, not, ◌&&◌, Option, none,
  some, arith, leb, ◌==◌, if◌then◌else◌, if_intro, inc32, Returns, eq_self, ap, ◌∙◌,
}
use virtualbox_drv.Gip.{
  Gip, GipCpu, c_cpus, sub64, do_update_cpu, recalc_hz, put_cpu, skip_update, update_entry,
  gip_update, gip_update_per_cpu, tsc_delta, new_history,
}

-- The transaction number moves on by two.
abbrev moved : ℕ → ℕ
moved t = inc32 (inc32 t)

-- What an update of the entry of one CPU does: the transaction number moves on by two, so it is even
-- again; if it was, the times and the new interval are stored, and if it was not, an error is counted
-- and nothing else changes.
pub record EntryUpdated (g f : Gip) (i nano_ts tsc : ℕ) : Type 0 where
  pub transaction : (f.cpus i).transaction ≡ moved (g.cpus i).transaction
  pub stored :
      (g.cpus i).transaction % 2 ≡ 0
      → ((f.cpus i).nano_ts ≡ nano_ts)
        × ((f.cpus i).tsc ≡ tsc)
        × ((f.cpus i).head ≡ ((g.cpus i).head + 1) % 8)
        × ((f.cpus i).history (f.cpus i).head ≡ tsc_delta (g.cpus i) tsc % 2 ^ 32)
  pub skipped :
      (g.cpus i).transaction % 2 ≡ 1
      → f.cpus i ≡ record (g.cpus i) {
        transaction = moved (g.cpus i).transaction;
        errors = inc32 (g.cpus i).errors;
      }
  pub others : (j : ℕ) → j ≢ i → f.cpus j ≡ g.cpus j

put_cpu-same : (g : Gip) (i : ℕ) (c : GipCpu) → (put_cpu g i c).cpus i ≡ c
put_cpu-same g i c = rw (eq_self i) refl

put_cpu-other : (g : Gip) (i j : ℕ) (c : GipCpu) → j ≢ i → (put_cpu g i c).cpus j ≡ g.cpus j
put_cpu-other g i j c differ = ground (arith, differ)

-- The entry of one CPU is put back.
put_cpu-EntryUpdated :
    (g f : Gip) (i nano_ts tsc : ℕ) (c : GipCpu)
    → f.cpus ≡ g.cpus
    → c.transaction ≡ moved (g.cpus i).transaction
    → ((g.cpus i).transaction % 2 ≡ 0
        → (c.nano_ts ≡ nano_ts)
          × (c.tsc ≡ tsc)
          × (c.head ≡ ((g.cpus i).head + 1) % 8)
          × (c.history c.head ≡ tsc_delta (g.cpus i) tsc % 2 ^ 32))
    → ((g.cpus i).transaction % 2 ≡ 1
        → c ≡ record (g.cpus i) {
          transaction = moved (g.cpus i).transaction;
          errors = inc32 (g.cpus i).errors;
        })
    → EntryUpdated g (put_cpu f i c) i nano_ts tsc
put_cpu-EntryUpdated g f i nano_ts tsc c same t p q = record {
  transaction = rw (put_cpu-same f i c) t;
  stored = rw (put_cpu-same f i c) p;
  skipped = rw (put_cpu-same f i c) q;
  others = λ j differ. put_cpu-other f i j c differ ∙ ap (λ h. h j) same;
}

skip_update-EntryUpdated :
    (g : Gip) (i nano_ts tsc : ℕ)
    → inc32 (g.cpus i).transaction % 2 ≡ 0
    → EntryUpdated g (put_cpu g i (skip_update (g.cpus i))) i nano_ts tsc
skip_update-EntryUpdated g i nano_ts tsc odd =
    put_cpu-EntryUpdated g g i nano_ts tsc (skip_update (g.cpus i)) refl refl
      (λ even. ground (arith, even, odd)) (λ _. refl)

new_history-head :
    (c : GipCpu) (delta tick : ℕ) → new_history c delta tick ((c.head + 1) % 8) ≡ delta % 2 ^ 32
unfolding new_history
new_history-head c delta tick = rw (eq_self ((c.head + 1) % 8)) refl

update_entry-EntryUpdated :
    (g f : Gip) (i nano_ts tsc tick : ℕ)
    → f.cpus ≡ g.cpus
    → inc32 (g.cpus i).transaction % 2 ≢ 0
    → EntryUpdated g (update_entry f i nano_ts tsc tick) i nano_ts tsc
unfolding update_entry do_update_cpu tsc_delta
update_entry-EntryUpdated g f i nano_ts tsc tick same even =
    put_cpu-EntryUpdated g f i nano_ts tsc _ same (ap (λ h. moved (h i).transaction) same)
      (λ _. (
        refl,
        refl,
        ap (λ h. ((h i).head + 1) % 8) same,
        new_history-head _ _ tick ∙ ap (λ h. tsc_delta (h i) tsc % 2 ^ 32) same,
      ))
      (λ odd. absurd (ground (arith, even, odd)))

-- Where the index is out of range nothing happens; else one entry is updated.
gip_update_per_cpu-EntryUpdated :
    (g : Gip) (i nano_ts tsc tick : ℕ)
    → ((c_cpus ≤ i) × (gip_update_per_cpu g i nano_ts tsc tick ≡ g))
      ⊎ ((i < c_cpus) × EntryUpdated g (gip_update_per_cpu g i nano_ts tsc tick) i nano_ts tsc)
unfolding gip_update_per_cpu
gip_update_per_cpu-EntryUpdated g i nano_ts tsc tick =
    if_intro
      (λ (f : Gip). ((c_cpus ≤ i) × (f ≡ g)) ⊎ ((i < c_cpus) × EntryUpdated g f i nano_ts tsc))
      (leb c_cpus i) _ _ (λ far. inl (ground (arith, far), refl))
      (λ near.
        if_intro
          (λ (f : Gip). ((c_cpus ≤ i) × (f ≡ g)) ⊎ ((i < c_cpus) × EntryUpdated g f i nano_ts tsc))
          (inc32 (g.cpus i).transaction % 2 == 0) _ _
          (λ odd.
            inr (
              ground (arith, near),
              skip_update-EntryUpdated g i nano_ts tsc (ground (arith, odd)),
            ))
          (λ even. inr (
            ground (arith, near),
            update_entry-EntryUpdated g g i nano_ts tsc tick refl (ground (arith, even)),
          )))

-- The frequency of the updates is from 30 to 2000 and the interval is the one that belongs to it.
pub record InBounds (g : Gip) : Type 0 where
  pub low : 30 ≤ g.update_hz
  pub high : g.update_hz ≤ 2000
  pub interval : g.interval_ns ≡ 1000000000 / g.update_hz

-- Only the time of the last measurement and the frequency may change.
pub record Measured (g f : Gip) : Type 0 where
  pub bounds : InBounds g → InBounds f
  pub cpus : f.cpus ≡ g.cpus

recalc_hz-Measured :
    (g : Gip) (transaction nano_ts : ℕ)
    → (g.last_update_hz ≡ 0) ⊎ (sub64 nano_ts g.last_update_hz ≢ 0)
    → Returns (Measured g) (recalc_hz g transaction nano_ts)
unfolding recalc_hz
recalc_hz-Measured g transaction nano_ts moves =
    if_intro (Returns (Measured g)) (not (transaction % 0x1000 / 2 == 0)) _ _
      (λ _. record { bounds = λ b. b; cpus = refl })
      (λ _.
        if_intro (Returns (Measured g)) (g.last_update_hz == 0) _ _
          (λ _. record {
            bounds = λ b. record { low = b.low; high = b.high; interval = b.interval };
            cpus = refl;
          })
          (λ set.
            if_intro (Returns (Measured g)) (sub64 nano_ts g.last_update_hz == 0) _ _
              (λ stands. ground (arith, moves, set, stands))
              (λ _.
                if_intro (Measured g)
                  (leb (1000000000 * 0x800 / sub64 nano_ts g.last_update_hz % 2 ^ 32) 2000
                    && leb 30 (1000000000 * 0x800 / sub64 nano_ts g.last_update_hz % 2 ^ 32))
                  _ _
                  (λ fits. record {
                    bounds = λ b. record {
                      low = ground (arith, fits);
                      high = ground (arith, fits);
                      interval = refl;
                    };
                    cpus = refl;
                  })
                  (λ _. record {
                    bounds = λ b. record { low = b.low; high = b.high; interval = b.interval };
                    cpus = refl;
                  }))))

same_frequency :
    (f : Gip) (i nano_ts tsc tick : ℕ) → InBounds f → InBounds (update_entry f i nano_ts tsc tick)
unfolding update_entry
same_frequency f i nano_ts tsc tick b = record { low = b.low; high = b.high; interval = b.interval }

Returns-map :
    (P Q : Gip → Type 0) (m : Option Gip) (k : Gip → Gip)
    → Returns P m
    → ((f : Gip) → P f → Q (k f))
    → Returns Q (elim m [ none ↦ none | some f ↦ some (k f) ])
Returns-map P Q none k h q = h
Returns-map P Q (some f) k h q = q f h

-- The entry that supdrvGipUpdate is about.
abbrev pub entry : Gip → (apic : ℕ) → ℕ
entry g apic = if g.is_async then apic else 0

-- What supdrvGipUpdate does.
pub record GipUpdated (g f : Gip) (i nano_ts tsc : ℕ) : Type 0 where
  pub bounds : InBounds g → InBounds f
  pub cpus : ((c_cpus ≤ i) × (f ≡ g)) ⊎ ((i < c_cpus) × EntryUpdated g f i nano_ts tsc)

-- supdrvGipUpdate does not divide by 0 if time has passed since the frequency was measured; the
-- frequency stays from 30 to 2000 with the interval that belongs to it; and nothing happens to the
-- entries if the CPU has none, else its entry is updated and no other one: the transaction number
-- moves on by two; if it was even the times and the interval are stored, at the next place of the
-- history, and if it was odd an error is counted and nothing else of the entry changes.
pub gip_update-GipUpdated :
    (g : Gip) (apic nano_ts tsc tick : ℕ)
    → (g.last_update_hz ≡ 0) ⊎ (sub64 nano_ts g.last_update_hz ≢ 0)
    → Returns (λ f. GipUpdated g f (entry g apic) nano_ts tsc) (gip_update g apic nano_ts tsc tick)
unfolding gip_update
gip_update-GipUpdated g apic nano_ts tsc tick moves =
    if_intro (Returns (λ f. GipUpdated g f i nano_ts tsc)) (leb c_cpus i) _ _
      (λ far. record { bounds = λ b. b; cpus = inl (ground (arith, far), refl) })
      (λ near.
        if_intro (Returns (λ f. GipUpdated g f i nano_ts tsc))
          (inc32 (g.cpus i).transaction % 2 == 0) _ _
          (λ odd. record {
            bounds = λ b. record { low = b.low; high = b.high; interval = b.interval };
            cpus = inr (
              ground (arith, near),
              skip_update-EntryUpdated g i nano_ts tsc (ground (arith, odd)),
            );
          })
          (λ even.
            Returns-map (Measured g) (λ f. GipUpdated g f i nano_ts tsc) _
              (λ f. update_entry f i nano_ts tsc tick)
              (recalc_hz-Measured g (inc32 (g.cpus i).transaction) nano_ts moves)
              (λ f r. record {
                bounds = λ b. same_frequency f i nano_ts tsc tick (r.bounds b);
                cpus = inr (
                  ground (arith, near),
                  update_entry-EntryUpdated g f i nano_ts tsc tick r.cpus (ground (arith, even)),
                );
              })))
  where
    i : ℕ
    i = entry g apic
