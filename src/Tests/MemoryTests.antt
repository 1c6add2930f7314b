-- ===== src/Tests/MemoryTests.antt =====
-- internal/store/memory/store.go at concrete inputs.
use ani_session_gateway.Prelude.{
  ◌+◌, ◌≡◌, ◌≤◌, ◌<◌, refl, subst, none, some, List, [], ◌∷◌, str, str_eq,
}
use ani_session_gateway.Prelude.Assoc.{lookup, insert, remove, count_by}
use ani_session_gateway.Session.Model.{Session, issued}
use ani_session_gateway.Memory.{
  Store, create_in, replay_existing, claim_session, lease_of, granted, new, cleanup, expire_lease,
  expire_leases, drop_tombstone, drop_tombstones, create_or_get, claim_and_reserve,
}
use ani_session_gateway.Memory.Invariant.{IsCoherent, new-IsCoherent}
use ani_session_gateway.Memory.Coherence.{IsCandidate, create_or_get-IsCoherent}
use ani_session_gateway.Memory.Capacity.{IsWithin, new-IsWithin}
use ani_session_gateway.Memory.Evolution.{Evolves}
use ani_session_gateway.Session.Contract.{IsReplay}
use ani_session_gateway.Memory.Laws.{create_or_get-IsReplay}
use ani_session_gateway.Memory.Expiry.{cleanup-leases_live, cleanup-keys_live}
use ani_session_gateway.Memory.History.{
  Call, claim, run, step, run-IsCoherent, run-IsWithin, run-Evolves, claim-run-digest,
  AllAdmissible, count_wins, wins, budget, count_wins-le,
}
use ani_session_gateway.Tests.Samples.{limits, sample_session}

abbrev first : Session
first = sample_session (str "one") (str "key")

-- The session is created, claimed with a wrong digest, claimed, and claimed again.
abbrev calls : List Call
calls =
    claim (str "one") (str "other") 5
    ∷ claim (str "one") (str "digest") 6
    ∷ claim (str "one") (str "digest") 7
    ∷ []

abbrev one_issued : Store
one_issued = record {
  sessions = (str "one", first) ∷ [];
  by_key = (str "key", str "one") ∷ [];
  leases = [];
}

created : (create_or_get (str "key") first new).1 ≡ one_issued
unfolding create_or_get cleanup expire_leases drop_tombstones insert remove lookup
created = refl

second_claim_wins : count_wins limits (str "one") calls one_issued ≡ 1
unfolding count_wins wins step claim_and_reserve cleanup expire_leases expire_lease drop_tombstones
    drop_tombstone insert remove lookup count_by str_eq
second_claim_wins = refl

first-IsCandidate : IsCandidate (str "key") first
first-IsCandidate = record { keyed = refl; is_new = refl }

one_issued-IsCoherent : IsCoherent one_issued
unfolding lookup
one_issued-IsCoherent =
    subst IsCoherent created
      (create_or_get-IsCoherent (str "key") first new new-IsCoherent first-IsCandidate refl)

one_issued-IsWithin : IsWithin limits one_issued
one_issued-IsWithin = new-IsWithin limits

all_admissible : AllAdmissible limits calls one_issued
unfolding AllAdmissible
all_admissible = (tt, (tt, (tt, tt)))

count_wins-le_example :
    count_wins limits (str "one") calls one_issued
      + budget (lookup (str "one") (run limits calls one_issued).sessions)
    ≤ budget (lookup (str "one") one_issued.sessions)
count_wins-le_example =
    count_wins-le limits (str "one") calls one_issued (tt, (tt, (tt, tt))) all_admissible
      one_issued-IsCoherent

run-IsCoherent_example : IsCoherent (run limits calls one_issued)
run-IsCoherent_example = run-IsCoherent limits calls one_issued all_admissible one_issued-IsCoherent

run-IsWithin_example : IsWithin limits (run limits calls one_issued)
run-IsWithin_example =
    run-IsWithin limits calls one_issued all_admissible one_issued-IsCoherent one_issued-IsWithin

run-Evolves_example :
    Evolves
      (lookup (str "one") one_issued.sessions)
      (lookup (str "one") (run limits calls one_issued).sessions)
run-Evolves_example =
    run-Evolves limits (str "one") calls one_issued (tt, (tt, (tt, tt))) all_admissible
      one_issued-IsCoherent

abbrev wrong_first : List Call
wrong_first = claim (str "one") (str "other") 5 ∷ []

wrong_first_admissible : AllAdmissible limits wrong_first one_issued
unfolding AllAdmissible
wrong_first_admissible = (tt, tt)

abbrev claimed_first : Session
claimed_first = claim_session (str "one") first 6 limits

claim-run-digest_example :
    (str "digest" ≡ first.ticket_digest)
    × (first.state ≡ issued)
    × (6 < first.ticket_expires_at)
    × (lease_of (str "one") claimed_first ≡ lease_of (str "one") claimed_first)
unfolding run step claim_and_reserve cleanup expire_leases expire_lease drop_tombstones
    drop_tombstone insert remove lookup count_by str_eq
claim-run-digest_example =
    claim-run-digest limits (str "one") first wrong_first one_issued (str "digest") 6 refl (tt, tt)
      wrong_first_admissible one_issued-IsCoherent refl

-- At 56 the lease of the claim at 6 has run out.
abbrev one_claimed : Store
one_claimed = granted (str "one") first 6 limits one_issued

late_cleanup : lookup (str "one") (cleanup 56 one_claimed).leases ≡ none
unfolding cleanup expire_leases expire_lease drop_tombstones drop_tombstone insert remove lookup
    str_eq
late_cleanup = refl

one_claimed-IsCoherent : IsCoherent one_claimed
unfolding run step claim_and_reserve cleanup expire_leases expire_lease drop_tombstones
    drop_tombstone insert remove lookup count_by str_eq
one_claimed-IsCoherent =
    run-IsCoherent limits (claim (str "one") (str "digest") 6 ∷ []) one_issued
      (unfold AllAdmissible in (tt, tt)) one_issued-IsCoherent

cleanup-leases_live_example :
    (7 < 56) × (lookup (str "one") one_claimed.leases ≡ some (lease_of (str "one") claimed_first))
unfolding cleanup expire_leases expire_lease drop_tombstones drop_tombstone insert remove lookup
    str_eq
cleanup-leases_live_example =
    cleanup-leases_live 7 (str "one") one_claimed (lease_of (str "one") claimed_first)
      one_claimed-IsCoherent refl

cleanup-keys_live_example : 7 < first.tombstone_expires_at
unfolding cleanup expire_leases expire_lease drop_tombstones drop_tombstone insert remove lookup
    str_eq
cleanup-keys_live_example = cleanup-keys_live 7 (str "key") (str "one") one_issued first refl refl

-- The same request again, with another identifier.
abbrev again : Session
again = record (sample_session (str "two") (str "key")) { created_at = 2 }

create_or_get-IsReplay_example : IsReplay (str "key") again first
unfolding create_or_get create_in replay_existing cleanup expire_leases expire_lease drop_tombstones
    drop_tombstone insert remove lookup str_eq
create_or_get-IsReplay_example =
    create_or_get-IsReplay (str "key") again first one_issued one_issued-IsCoherent refl
