-- ===== src/Room/Rounds.antt =====
-- A voting round: when the votes are shown, and what a vote changes once they are.
use mathlib.Core.List.{append-nil}
use planning_poker.Base.{
  All, Any, List, ap, sym, subst, ◌∙◌, ◌⊎◌, inl, inr, String, ◌≡◌, refl, true, false, Option, none,
  some, [], ◌∷◌, ◌++◌, arith,
}
use planning_poker.DomainError.{Error, code_of, domain, validation, text}
use planning_poker.Deck.{has_card}
use planning_poker.Float32.{Float32}
use planning_poker.Room.{
  Clock, Client, Room, Event, votes_revealed, deck, mark_vote, record_event, is_cast, vote_cast,
  utc,
}
use planning_poker.Room.Clients.{find_client, update_first}
use planning_poker.Room.Reveal.{reveal, check_reveal, all_voted}
use planning_poker.Room.Guards.{with_client}
use planning_poker.Room.Presence.{apply_vote}
use planning_poker.Room.Voting.{vote, cast_event, is_allowed, label}
use planning_poker.Room.Places.{Found, found_cases, IsFinished, IsWaiting, voted_cases}
use planning_poker.Room.Events.{shown_event, reveal-events}
use planning_poker.Room.Frame.{reveal-check_reveal, check_reveal-SameFrame}

module _ {F : Type 0} ⦃fl : Float32 F⦄ where
  check_reveal-shown : (t : Clock) (r : Room F) → r.reveal ≡ true → check_reveal t r ≡ r
  unfolding check_reveal reveal
  check_reveal-shown t r h = ground arith

  -- Once the votes are shown a vote changes nothing, whoever casts it and whatever it is: no vote, no
  -- event, no new summary.
  vote-shown :
      (t : Clock) (id : String) (v : Option String) (r : Room F)
      → r.reveal ≡ true
      → (vote t id v r).0 ≡ r
  unfolding vote with_client cast_event apply_vote
  vote-shown t id v r h = ground (arith, check_reveal-shown t r h)

  -- The room to which `checkReveal` is applied.
  abbrev voted_room : Clock → String → String → Room F → Room F
  voted_room t id v r = record r {
    clients = update_first id (mark_vote t (some v)) r.clients;
    events = r.events ++ vote_cast r.id id v (utc t.cast_at) ∷ [];
  }

  vote_room :
      (t : Clock) (id v : String) (r : Room F) (c : Client)
      → r.reveal ≡ false
      → find_client id r ≡ some c
      → is_cast (some v) ≡ true
      → has_card (deck r) v ≡ true
      → vote t id (some v) r ≡ (check_reveal t (voted_room t id v r), none)
  unfolding vote with_client cast_event apply_vote is_allowed label record_event
  vote_room t id v r c h f n k = ground arith

  -- What `checkReveal` records.
  events-check_reveal :
      (t : Clock) (r : Room F)
      → r.reveal ≡ false
      → all_voted r.clients ≡ true
      → (rest : List (Event F)) × ((check_reveal t r).events
          ≡ r.events ++ shown_event t r (check_reveal t r) ∷ rest)
  unfolding check_reveal
  events-check_reveal t r h all =
      let same : check_reveal t r ≡ reveal t true r = rw all refl in
      let (rest, e) = reveal-events t r h in
      (
        rest,
        ap (λ s. s.events) same ∙ e ∙ ap (λ s. r.events ++ shown_event t r s ∷ rest) (sym same),
      )

  -- Whether the votes of the room `s` are shown after a vote that recorded `more` behind its own
  -- event: they are if every client by then is a spectator or has voted, with the reveal as the next
  -- event, and they are not if one is yet to vote, with no further event.
  abbrev pub ShowsIfAll : Clock → Room F → Room F → List (Event F) → Type 0
  ShowsIfAll t r s more =
      ((s.reveal ≡ true)
        × All IsFinished s.clients
        × ((rest : List (Event F)) × (more ≡ shown_event t r s ∷ rest)))
      ⊎ ((s.reveal ≡ false) × Any IsWaiting s.clients × (more ≡ []))

  shows_if_all :
      (t : Clock) (r p : Room F)
      → p.id ≡ r.id
      → p.reveal ≡ false
      → (more : List (Event F)) × ((check_reveal t p).events ≡ p.events ++ more)
        × ShowsIfAll t r (check_reveal t p) more
  unfolding check_reveal
  shows_if_all t r p i h =
      let s = check_reveal t p in
      let same = (check_reveal-SameFrame t p).clients in
      let shown = reveal-check_reveal t p in
      elim (voted_cases p.clients) [
        | inl (e, all) ↦
            let (rest, recorded) = events-check_reveal t p h e in
            (
              shown_event t p s ∷ rest,
              recorded,
              inl (
                ground arith,
                subst (λ cs. All IsFinished cs) (sym same) all,
                (
                  rest,
                  ap (λ id. votes_revealed id s.result s.consensus (utc t.revealed_at) ∷ rest) i,
                ),
              ),
            )
        | inr (e, any) ↦ (
          [],
          rw e (sym (append-nil p.events)),
          inr (ground arith, subst (λ cs. Any IsWaiting cs) (sym same) any, refl),
        )
      ]

  -- A card played before the reveal by the first client of the identifier: that client has the vote,
  -- and nobody else changes; the event of the vote is recorded behind the old ones; and the votes are
  -- shown, which is the next event, exactly if every client that is no spectator has voted by then.
  pub vote-hidden :
      (t : Clock) (id v : String) (r : Room F) (c : Client)
      → r.reveal ≡ false
      → find_client id r ≡ some c
      → is_cast (some v) ≡ true
      → has_card (deck r) v ≡ true
      → let (s, error) = vote t id (some v) r in
        (error ≡ none)
        × ((f : Found id r.clients) × (f.client ≡ c)
            × (s.clients
                ≡ f.before
                  ++ record c {
                    current_vote = some v;
                    has_voted = true;
                    voted_at = some (utc t.voted_at);
                  }
                    ∷ f.after))
        × ((more : List (Event F)) × (s.events
              ≡ (r.events ++ vote_cast r.id id v (utc t.cast_at) ∷ []) ++ more)
            × ShowsIfAll t r s more)
  unfolding find_client mark_vote
  vote-hidden t id v r c h f n k =
      let played = voted_room t id v r in
      let same = (check_reveal-SameFrame t played).clients in
      rw (vote_room t id v r c h f n k) (
        refl,
        elim (found_cases id r.clients) [
          | inl (a, found, gone, written) ↦
              let e : a.client ≡ c = ground (arith, f, found) in
              (
                a,
                e,
                same
                    ∙ written (mark_vote t (some v))
                    ∙ ap (λ x. a.before ++ x ∷ a.after)
                        (ap (mark_vote t (some v)) e ∙ ground (arith, n)),
              )
          | inr (others, missing, kept) ↦ absurd (ground (arith, f, missing))
        ],
        shows_if_all t r played refl h,
      )

  -- A label that is no card of the room's deck is refused, and nothing changes.
  pub vote_no_card :
      (t : Clock) (id v : String) (r : Room F) (c : Client)
      → find_client id r ≡ some c
      → is_cast (some v) ≡ true
      → has_card (deck r) v ≡ false
      → (e : Error) × (vote t id (some v) r ≡ (r, some e)) × (code_of e ≡ some validation)
  unfolding vote with_client is_allowed label code_of
  vote_no_card t id v r c f n k = (
    domain validation "vote %q is not part of deck %s" (text v ∷ text (deck r).id ∷ []),
    ground arith,
    refl,
  )
