-- ===== src/Stats/Tests.antt =====
-- Tests of the statistics page, and the theorems at concrete inputs.
use cs537_fall.Prelude.{◌≡◌, refl, false}
use cs537_fall.Stats.Page.{
  searching, Page, search_buffer, clear_buffer, stats_unlink, fresh_page, searches, clears, Reach,
  maps, next,
}
use cs537_fall.Stats.Owners.{IsOwned, Reach-IsOwned}

-- Client 0 has claimed buffer 0, and client 1 goes on to buffer 1.
abbrev first_claims : Page
first_claims = search_buffer 1 0 (search_buffer 0 0 fresh_page)

first_claims-Reach : Reach first_claims
unfolding search_buffer
first_claims-Reach = next (next maps (searches 0 0 refl)) (searches 1 0 refl)

Reach-IsOwned_example : IsOwned first_claims
Reach-IsOwned_example = Reach-IsOwned first_claims-Reach

second_goes_on : first_claims.clients 1 ≡ searching 1
unfolding search_buffer
second_goes_on = refl

abbrev cleared : Page
cleared = clear_buffer 0 0 first_claims

cleared-Reach : Reach cleared
unfolding search_buffer
cleared-Reach = next first_claims-Reach (clears 0 0 refl)

-- Client 2 claims buffer 0 after client 0 left; a second `stats_unlink` of client 0 frees it.
second_unlink : (stats_unlink 0 (search_buffer 2 0 (stats_unlink 0 cleared).1)).1.valid 0 ≡ false
unfolding stats_unlink search_buffer clear_buffer
second_unlink = refl
