-- ===== src/Stats/Owners.antt =====
-- The buffers of projects/p3/p3a/stats.c have one owner each.
use cs537_fall.Prelude.{
  ℕ, ◌+◌, ◌≡◌, refl, ◌==◌, true, false, Bool-cases, inl, inr, Option, none, some, arith,
}
use native.Mathlib.Decide.{ℕ_discrete}
use cs537_fall.Prelude.Arrays.{update}
use cs537_fall.Stats.Page.{
  number_of_buffers, StatsT, zero_stats, Client, searching, claimed, owner, refused, left, Page,
  set_client, search_buffer, clear_buffer, stats_unlink, Step, searches, clears, writes, unlinks,
  Reach, maps, next,
}

-- The buffer that a client has.
abbrev pub held : Client → Option ℕ
held (searching b) = none
held (claimed b) = some b
held (owner b) = some b
held refused = none
held left = none

-- A buffer in use belongs to one client, and what a client has is in use.
pub record IsOwned (p : Page) : Type 0 where
  pub in_use : (i b : ℕ) → held (p.clients i) ≡ some b → p.valid b ≡ true
  pub unique : (i j b : ℕ) → held (p.clients i) ≡ some b → held (p.clients j) ≡ some b → i ≡ j
  pub has_owner : (b : ℕ) → p.valid b ≡ true → (i : ℕ) × (held (p.clients i) ≡ some b)

-- A client changes its phase and has the same buffer as before, or none.
move-IsOwned :
    (i : ℕ) (c : Client) (p : Page)
    → held c ≡ held (p.clients i)
    → IsOwned p
    → IsOwned (set_client i c p)
move-IsOwned i c p same v = record {
  in_use = λ j b h. v.in_use j b (ground (arith, h, same));
  unique = λ j k b h₁ h₂. v.unique j k b (ground (arith, h₁, same)) (ground (arith, h₂, same));
  has_owner = λ b h. let (j, hj) = v.has_owner b h in (j, ground (arith, hj, same));
}

claim-IsOwned :
    (i b : ℕ) (p : Page)
    → p.valid b ≡ false
    → held (p.clients i) ≡ none
    → IsOwned p
    → IsOwned (set_client i (claimed b) (record p { valid = update p.valid b true }))
claim-IsOwned i b p free bare v = record {
  in_use = λ j d h. ground (arith, h, v.in_use j d);
  unique =
      λ j k d h₁ h₂. ground (arith, h₁, h₂, v.unique j k d, v.in_use j d, v.in_use k d, bare, free);
  has_owner = λ d h. elim (ℕ_discrete b d) [
    | yes same ↦ (i, ground arith)
    | no other ↦ let (j, hj) = v.has_owner d (ground (arith, h)) in (j, ground (arith, hj, bare))
  ];
}

give_back-IsOwned :
    (i b : ℕ) (p : Page)
    → p.clients i ≡ owner b
    → IsOwned p
    → IsOwned (set_client i left (stats_unlink b p).1)
unfolding stats_unlink
give_back-IsOwned i b p mine v =
    let has : held (p.clients i) ≡ some b = rw mine refl in
    rw (v.in_use i b has) (record {
      in_use = λ j d h. ground (arith, h, v.in_use j d, v.unique i j b has);
      unique = λ j k d h₁ h₂. ground (arith, h₁, h₂, v.unique j k d);
      has_owner =
          λ d h. let (j, hj) = v.has_owner d (ground (arith, h)) in (j, ground (arith, h, hj, has));
    })

search-IsOwned :
    (i b : ℕ) (p : Page) → p.clients i ≡ searching b → IsOwned p → IsOwned (search_buffer i b p)
unfolding search_buffer
search-IsOwned i b p here v = elim (Bool-cases (b == number_of_buffers)) [
  | inl over ↦ rw over (move-IsOwned i refused p (rw here refl) v)
  | inr inside ↦ elim (Bool-cases (p.valid b)) [
    | inl used ↦ rw (inside, used) (move-IsOwned i (searching (b + 1)) p (rw here refl) v)
    | inr free ↦ rw (inside, free) (claim-IsOwned i b p free (rw here refl) v)
  ]
]

-- The data of the buffers does not matter.
data-IsOwned : (stats : ℕ → StatsT) (p : Page) → IsOwned p → IsOwned (record p { stats = stats })
data-IsOwned stats p v = record { in_use = v.in_use; unique = v.unique; has_owner = v.has_owner }

Step-IsOwned : {p p' : Page} → Step p p' → IsOwned p → IsOwned p'
unfolding clear_buffer
Step-IsOwned (searches {p = p} i b h) v = search-IsOwned i b p h v
Step-IsOwned (clears {p = p} i b h) v =
    data-IsOwned (update p.stats b zero_stats) (set_client i (owner b) p)
      (move-IsOwned i (owner b) p (rw h refl) v)
Step-IsOwned (writes {p = p} i b s h) v = data-IsOwned (update p.stats b s) p v
Step-IsOwned (unlinks {p = p} i b h) v = give_back-IsOwned i b p h v

-- However the clients interleave, if each calls `stats_init` once and then `stats_unlink` at most
-- once, a buffer is in use exactly if a client has it, and no two clients have the same one.
pub Reach-IsOwned : {p : Page} → Reach p → IsOwned p
Reach-IsOwned maps = record {
  in_use = λ i b h. absurd (cc);
  unique = λ i j b h k. absurd (cc);
  has_owner = λ b h. absurd (cc);
}
Reach-IsOwned (next r s) = Step-IsOwned s (Reach-IsOwned r)
