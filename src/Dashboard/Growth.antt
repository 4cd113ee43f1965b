-- ===== src/Dashboard/Growth.antt =====
-- web/src/pages/DashboardPage.tsx with internal/api/settings_handlers.go: the growth is drawn.
use restic_ui.Base.{
  ℕ, Bool, true, false, Option, none, some, List, [], ◌∷◌, ◌≡◌, refl, ap, ◌∙◌, if◌then◌else◌,
  get_last?, map, ◌≢◌, subst,
}
use restic_ui.Base.Text.{Text}
use restic_ui.Types.Dashboard.{GrowthPoint, RepoGrowth}
use restic_ui.Dashboard.{
  GrowthCard, History, card_from, growth_card, growth_cards, growth_part, repo_growth, add_growth,
  cons_card, sent_growth,
}

-- There are cards, one for each repository, under its name.
abbrev pub Draws : List RepoGrowth → Option (List GrowthCard) → Type 0
Draws gs none = ⊥
Draws gs (some cards) = map (λ c. c.repo_name) cards ≡ map (λ g. g.repo_name) gs

last_of_some :
    (p : GrowthPoint) (ps : List GrowthPoint) → (q : GrowthPoint) × (get_last? (p ∷ ps) ≡ some q)
last_of_some p [] = (p, refl)
last_of_some p (q ∷ ps) = last_of_some q ps

abbrev growth_of : ℕ → Text → GrowthPoint → List GrowthPoint → RepoGrowth
growth_of id name p ps = record { repo_id = id; repo_name = name; points = p ∷ ps }

growth_card-some :
    (id : ℕ) (name : Text) (p : GrowthPoint) (ps : List GrowthPoint)
    → (c : GrowthCard) × (growth_card (growth_of id name p ps) ≡ some c) × (c.repo_name ≡ name)
unfolding growth_card
growth_card-some id name p ps =
    let (q, e) = last_of_some p ps in (_, ap (card_from (growth_of id name p ps) (some p)) e, refl)

cons_card-Draws :
    (g : RepoGrowth) (gs : List RepoGrowth) (c : GrowthCard) (o : Option (List GrowthCard))
    → c.repo_name ≡ g.repo_name
    → Draws gs o
    → Draws (g ∷ gs) (cons_card (some c) o)
cons_card-Draws g gs c none e h = h
cons_card-Draws g gs c (some cards) e h =
    ap (λ n. n ∷ map (λ d. d.repo_name) cards) e ∙ ap (λ l. g.repo_name ∷ l) h

add_growth-Draws :
    (id : ℕ) (name : Text) (points : List GrowthPoint) (rest : List RepoGrowth)
    → Draws rest (growth_cards rest)
    → Draws (add_growth id name points rest) (growth_cards (add_growth id name points rest))
unfolding growth_cards
add_growth-Draws id name [] rest h = h
add_growth-Draws id name (p ∷ ps) rest h =
    let (c, e, n) = growth_card-some id name p ps in
    rw e (cons_card-Draws (growth_of id name p ps) rest c (growth_cards rest) n h)

history-Draws :
    (id : ℕ) (name : Text) (points : Option (List GrowthPoint)) (rest : List RepoGrowth)
    → Draws rest (growth_cards rest)
    → Draws (sent_growth id name points rest) (growth_cards (sent_growth id name points rest))
history-Draws id name none rest h = h
history-Draws id name (some points) rest h = add_growth-Draws id name points rest h

repo_growth-Draws : (hs : List History) → Draws (repo_growth hs) (growth_cards (repo_growth hs))
unfolding repo_growth
repo_growth-Draws [] = unfold growth_cards in refl
repo_growth-Draws (h ∷ hs) =
    history-Draws h.id h.name h.points (repo_growth hs) (repo_growth-Draws hs)

drawn :
    (gs : List RepoGrowth) (shown : Bool)
    → Draws gs (growth_cards gs)
    → (if shown then growth_cards gs else some []) ≢ none
drawn gs true h e = subst (Draws gs) e h
drawn gs false h e = cc e

-- Whatever histories of sizes the server has, also empty ones and errors: the growth that it sends
-- makes one card for each repository that it sent, under its name and in their order; and the
-- dashboard, whether it shows these cards or leaves them out, never reads the size of a point that
-- is not there.
pub growth_part-drawn :
    (hs : List History)
    → Draws (repo_growth hs) (growth_cards (repo_growth hs)) × (growth_part (repo_growth hs) ≢ none)
unfolding growth_part
growth_part-drawn hs = (repo_growth-Draws hs, drawn (repo_growth hs) _ (repo_growth-Draws hs))
