-- ===== src/Room/Events.antt =====
-- What a reveal writes down: the events and the estimate of the current story.
use mathlib.Core.List.{append-nil, append_assoc}
use planning_poker.Base.{
  ℕ, suc, ◌≤◌, ◌<◌, String, ◌≡◌, refl, ap, sym, ◌∙◌, ◌⊎◌, inl, inr, true, false, Option, none, some,
  List, [], ◌∷◌, ◌++◌, arith, str_eq, ltb, if◌then◌else◌, length, get_elem?, get_elem?-total, take,
  drop, length-take, take-append-drop, drop-get_elem?, Bool-cases,
}
use planning_poker.Base.Int.{ℤ, pos, negsuc}
use planning_poker.Float32.{Float32}
use planning_poker.Room.{
  Clock, Story, Room, Event, votes_revealed, story_estimated, utc, record_event,
}
use planning_poker.Room.Frame.{reveal-reveal}
use planning_poker.Room.Reveal.{
  reveal, show_votes, show_summary, stamp_current, stamp_at, record_reveal, estimated_event,
  estimated_index, story_id_at, in_range, stamp,
}

-- An index that names no item of a list of the length.
abbrev pub OutOfRange : ℤ → ℕ → Type 0
OutOfRange (pos i) n = n ≤ i
OutOfRange (negsuc i) n = Unit

in_range_cases :
    (i : ℤ) (n : ℕ)
    → ((k : ℕ) × (i ≡ pos k) × (k < n) × (in_range i n ≡ some k))
      ⊎ (OutOfRange i n × (in_range i n ≡ none))
in_range_cases (pos k) n = elim (Bool-cases (ltb k n)) [
  | inl e ↦ inl (k, refl, ground arith, ground arith)
  | inr e ↦ inr (ground arith, ground arith)
]
in_range_cases (negsuc k) n = inr (tt, refl)

module _ {F : Type 0} where
  -- The current story of the backlog, with the stories before it and after it.
  pub record Current (r : Room F) : Type 0 where
    pub before : List (Story F)
    pub story : Story F
    pub after : List (Story F)
    pub in_backlog : r.backlog_mode ≡ true
    pub whole : r.stories ≡ before ++ story ∷ after
    pub here : r.current_story_index ≡ pos (length before)

  -- The event of a reveal of the room `r` that leaves the room `s`.
  abbrev pub shown_event : Clock → Room F → Room F → Event F
  shown_event t r s = votes_revealed r.id s.result s.consensus (utc t.revealed_at)

  -- The event of the estimate, if the story has an identifier.
  abbrev pub estimate_events : Clock → String → Room F → Room F → List (Event F)
  estimate_events t story_id r s =
      if str_eq story_id ""
      then []
      else story_estimated r.id story_id s.result (utc t.estimated_at) ∷ []

  -- What a reveal that takes the room `r` to `s` does with a current story of the backlog.
  abbrev pub Estimates : Clock → Room F → Room F → Type 0
  Estimates t r s =
      (c : Current r) × (s.stories
        ≡ c.before
          ++ record c.story {
            result = s.result;
            most_appearing_votes = s.most_appearing_votes;
            voted = true;
          }
            ∷ c.after)
      × (s.events ≡ (r.events ++ shown_event t r s ∷ []) ++ estimate_events t c.story.id r s)

  -- And what it does without one.
  abbrev pub OnlyShows : Clock → Room F → Room F → Type 0
  OnlyShows t r s =
      ((r.backlog_mode ≡ false) ⊎ OutOfRange r.current_story_index (length r.stories))
      × (s.stories ≡ r.stories)
      × (s.events ≡ r.events ++ shown_event t r s ∷ [])

  -- A place in the stories as a split of them.
  split_at :
      (r : Room F) (k : ℕ) (story : Story F)
      → r.backlog_mode ≡ true
      → r.current_story_index ≡ pos k
      → k < length r.stories
      → get_elem? r.stories k ≡ some story
      → (c : Current r) × (length c.before ≡ k)
  split_at r k story b i l g =
      let n = length-take k r.stories (omega arith) in
      (
        record {
          before = take k r.stories;
          story = story;
          after = drop (suc k) r.stories;
          in_backlog = b;
          whole =
              sym (take-append-drop k r.stories)
              ∙ ap (λ l. take k r.stories ++ l) (drop-get_elem? k r.stories g);
          here = i ∙ ap pos (sym n);
        },
        n,
      )

  current_cases :
      (r : Room F)
      → ((c : Current r) × (estimated_index r ≡ some (length c.before)))
        ⊎ (((r.backlog_mode ≡ false) ⊎ OutOfRange r.current_story_index (length r.stories))
            × (estimated_index r ≡ none))
  unfolding estimated_index
  current_cases r = elim (Bool-cases r.backlog_mode) [
    | inr b ↦ inr (inl b, rw b refl)
    | inl b ↦ elim (in_range_cases r.current_story_index (length r.stories)) [
      | inr (out, e) ↦ inr (inr out, rw b e)
      | inl (k, i, l, e) ↦
          let (story, g) = get_elem?-total r.stories k l in
          let (c, n) = split_at r k story b i l g in
          let chosen : estimated_index r ≡ some k = rw b e in inl (c, chosen ∙ ap some (sym n))
    ]
  ]

  stamp_at-append :
      (before : List (Story F)) (s : Story F) (after : List (Story F)) (v : Option F)
      (most : List String)
      → stamp_at (some (length before)) v most (before ++ s ∷ after)
        ≡ before ++ record s { result = v; most_appearing_votes = most; voted = true } ∷ after
  unfolding stamp_at stamp
  stamp_at-append [] s after v most = refl
  stamp_at-append (b ∷ bs) s after v most = ap (λ l. b ∷ l) (stamp_at-append bs s after v most)

  story_id_at-append :
      (before : List (Story F)) (s : Story F) (after : List (Story F))
      → story_id_at (some (length before)) (before ++ s ∷ after) ≡ s.id
  unfolding story_id_at
  story_id_at-append [] s after = refl
  story_id_at-append (b ∷ bs) s after = story_id_at-append bs s after

  estimated-events :
      (t : Clock) (story_id : String) (r : Room F)
      → (estimated_event t story_id r).events ≡ r.events ++ estimate_events t story_id r r
  unfolding estimated_event record_event
  estimated-events t story_id r = ground (arith, append-nil r.events)

  same_result :
      (t : Clock) (story_id : String) (r : Room F)
      → ((estimated_event t story_id r).result ≡ r.result)
        × ((estimated_event t story_id r).id ≡ r.id)
        × ((estimated_event t story_id r).consensus ≡ r.consensus)
        × ((estimated_event t story_id r).most_appearing_votes ≡ r.most_appearing_votes)
        × ((estimated_event t story_id r).stories ≡ r.stories)
        × ((estimated_event t story_id r).reveal ≡ r.reveal)
  unfolding estimated_event record_event
  same_result t story_id r = ground arith

module _ {F : Type 0} ⦃fl : Float32 F⦄ where
  -- The events and the stamp of a first reveal, in the words of the code.
  reveal-written :
      (t : Clock) (r : Room F)
      → r.reveal ≡ false
      → let s = reveal t true r in
        (s.stories ≡ stamp_at (estimated_index r) s.result s.most_appearing_votes r.stories)
        × (s.events
            ≡ (r.events ++ shown_event t r s ∷ [])
              ++ estimate_events t (story_id_at (estimated_index r) r.stories) r s)
  unfolding reveal show_votes record_reveal stamp_current show_summary record_event estimated_index
  reveal-written t r h =
      let shown = show_summary (record r { reveal = true }) in
      let story_id = story_id_at (estimated_index r) r.stories in
      let base =
        record_event (votes_revealed r.id shown.result shown.consensus (utc t.revealed_at))
          (stamp_current shown) in
      let (e0, e1, e2, e3, e4, e5) = same_result t story_id base in
      let e6 = estimated-events t story_id base in rw h (ground arith)

  pub reveal-events :
      (t : Clock) (r : Room F)
      → r.reveal ≡ false
      → let s = reveal t true r in
        (rest : List (Event F)) × (s.events ≡ r.events ++ shown_event t r s ∷ rest)
  reveal-events t r h =
      let s = reveal t true r in
      let rest = estimate_events t (story_id_at (estimated_index r) r.stories) r s in
      (rest, (reveal-written t r h).1 ∙ append_assoc r.events (shown_event t r s ∷ []) rest)

  -- The first reveal of a round shows the votes. With a current story of the backlog, that story is
  -- stamped with the result and the winners that the room then has and every other story is kept, and
  -- the events recorded behind the old ones are the reveal and, if the story has an identifier, its
  -- estimate. Outside the backlog mode, or with an index out of range, no story changes and the reveal
  -- is the only event.
  pub reveal-hidden :
      (t : Clock) (r : Room F)
      → r.reveal ≡ false
      → let s = reveal t true r in (s.reveal ≡ true) × (Estimates t r s ⊎ OnlyShows t r s)
  reveal-hidden t r h =
      let s = reveal t true r in
      let (stories, events) = reveal-written t r h in
      (
        reveal-reveal t true r,
        elim (current_cases r) [
          | inl (c, e) ↦ inl (
            c,
            stories
                ∙ ap (λ o. stamp_at o s.result s.most_appearing_votes r.stories) e
                ∙ ap (λ l. stamp_at (some (length c.before)) s.result s.most_appearing_votes l)
                    c.whole
                ∙ stamp_at-append c.before c.story c.after s.result s.most_appearing_votes,
            events
                ∙ ap (λ id. (r.events ++ shown_event t r s ∷ []) ++ estimate_events t id r s)
                    (ap (λ o. story_id_at o r.stories) e
                      ∙ ap (λ l. story_id_at (some (length c.before)) l) c.whole
                      ∙ story_id_at-append c.before c.story c.after),
          )
          | inr (why, e) ↦ inr (
            why,
            stories
                ∙ ap (λ o. stamp_at o s.result s.most_appearing_votes r.stories) e
                ∙ (unfold stamp_at in refl),
            events
                ∙ ap
                    (λ o.
                      (r.events ++ shown_event t r s ∷ [])
                      ++ estimate_events t (story_id_at o r.stories) r s)
                    e
                ∙ (unfold story_id_at in append-nil (r.events ++ shown_event t r s ∷ [])),
          )
        ],
      )

  -- A second reveal changes nothing.
  reveal_again : (t u : Clock) (r : Room F) → reveal u true (reveal t true r) ≡ reveal t true r
  unfolding reveal
  reveal_again t u r = ground (arith, reveal-reveal t true r)
