-- ===== src/Connections/Pending.antt =====
-- engine/connections/service.py: what a model suggests stays out of the graph until it is approved.
use capital.Prelude.{
  ℕ, String, ◌==◌, ◌≡◌, refl, ap, ◌∙◌, false, ◌||◌, Bool-cases, inl, inr, Option, none, some, List,
  [], ◌∷◌, ◌++◌, find, select, All, All-append, if◌then◌else◌,
}
use capital.Context.{Context}
use capital.Models.{Time}
use capital.Effects.{Result, ok, err}
use capital.Effects.Stateful.{Action, continue}
use capital.Ai.Decisions.{Provider}
use capital.Json.{Json}
use capital.Connections.{
  GraphNode, GraphEdge, Graph, Keys, node_at, has_label, add_unless, node_or_new,
  get_or_create_node,
}
use capital.Connections.Suggest.{
  Texts, GraphSession, Progress, Suggestion, same_edge, saved_after, link_unless, node_or_raise,
  new_edge, linked, take_up, take_all, suggestion_of, finish, store, array_of, log_usage, suggest,
}

abbrev pub approved_edges : Graph → List GraphEdge
approved_edges g = select (λ e. e.approved) g.edges

-- The run has brought only pending edges.
record IsPending (approved : List GraphEdge) (p : Progress) : Type 0 where
  saved_same : approved_edges p.saved ≡ approved
  held_same : approved_edges p.held ≡ approved
  created_pending : All (λ e. e.approved ≡ false) p.created

select-pending :
    (es : List GraphEdge) (new : GraphEdge)
    → new.approved ≡ false
    → select (λ e. e.approved) (es ++ new ∷ []) ≡ select (λ e. e.approved) es
select-pending [] new h = rw h refl
select-pending (e ∷ es) new h = ap (λ t. if e.approved then e ∷ t else t) (select-pending es new h)

edges-add_unless :
    (old : Option GraphNode) (new : GraphNode) (g : Graph)
    → (add_unless old new g).1.edges ≡ g.edges
edges-add_unless (some n) new g = refl
edges-add_unless none new g = refl

module _ (keys : Keys) where
  edges-node_or_new :
      (label kind : String) (symbol icon : Option String) (found : Option GraphNode) (g : Graph)
      → (node_or_new keys label kind symbol icon found g).1.edges ≡ g.edges
  edges-node_or_new label kind symbol icon (some n) g = refl
  edges-node_or_new label kind symbol icon none g = edges-add_unless _ _ g

  edges-get_or_create_node :
      (label kind : String) (g : Graph) → (get_or_create_node keys label kind g).1.edges ≡ g.edges
  unfolding get_or_create_node
  edges-get_or_create_node label kind g =
      edges-node_or_new label kind none none (find (has_label label) g.nodes) g

module _ (keys : Keys) (texts : Texts) where
  link_unless-IsPending :
      (old : Option GraphEdge) (new : GraphEdge) (approved : List GraphEdge) (p : Progress)
      → new.approved ≡ false
      → IsPending approved p
      → IsPending approved (link_unless old new p)
  link_unless-IsPending (some e) new approved p h k = k
  link_unless-IsPending none new approved p h k = record {
    saved_same = k.saved_same;
    held_same = select-pending p.held.edges new h ∙ k.held_same;
    created_pending =
        All-append (λ e. e.approved ≡ false) p.created (new ∷ []) k.created_pending (h, tt);
  }

  saved_after_lem :
      (found : Option GraphNode) (approved : List GraphEdge) (saved held : Graph)
      → approved_edges saved ≡ approved
      → approved_edges held ≡ approved
      → approved_edges (saved_after found saved held) ≡ approved
  saved_after_lem (some n) approved saved held h k = h
  saved_after_lem none approved saved held h k = k

  linked-IsPending :
      (node : GraphNode) (s : Suggestion) (now : Time) (approved : List GraphEdge) (p : Progress)
      (out : Result GraphNode × Graph)
      → out.1.edges ≡ p.held.edges
      → IsPending approved p
      → IsPending approved (linked keys texts node s now p out).1
  linked-IsPending node s now approved p (err e, g) same k = k
  linked-IsPending node s now approved p (ok other, g) same k =
      let same_view : approved_edges g ≡ approved =
        ap (select (λ e. e.approved)) same ∙ k.held_same in
      let found : Option GraphNode = find (has_label s.label) p.held.nodes in
      let q : Progress = record p { saved = saved_after found p.saved g; held = g } in
      link_unless-IsPending (find (same_edge node.id other.id s.relation) g.edges)
        (new_edge keys texts node.id other.id s.relation now g) approved q refl
        (record {
          saved_same = saved_after_lem found approved p.saved g k.saved_same same_view;
          held_same = same_view;
          created_pending = k.created_pending;
        })

  take_up-IsPending :
      (node : GraphNode) (s : Suggestion) (now : Time) (approved : List GraphEdge) (p : Progress)
      → IsPending approved p
      → IsPending approved (take_up keys texts node s now p).1
  take_up-IsPending node s now approved p k =
      elim (Bool-cases (s.label == "" || texts.lower s.label == texts.lower node.label)) [
        | inl e ↦ rw e k
        | inr e ↦ rw e (
            linked-IsPending node s now approved p (get_or_create_node keys s.label s.kind p.held)
              (edges-get_or_create_node keys s.label s.kind p.held) k)
      ]

  after_one :
      (node : GraphNode) (now : Time) (items : List Json) (approved : List GraphEdge)
      (out : Result (Unit {0}) × Progress)
      → ((p : Progress)
          → IsPending approved p
          → IsPending approved (take_all keys texts node now items p).1)
      → IsPending approved out.1
      → IsPending approved (continue (λ a. take_all keys texts node now items) out).1
  after_one node now items approved (ok a, p) h k = h p k
  after_one node now items approved (err e, p) h k = k

  take_all-IsPending :
      (node : GraphNode) (now : Time) (items : List Json) (approved : List GraphEdge) (p : Progress)
      → IsPending approved p
      → IsPending approved (take_all keys texts node now items p).1
  take_all-IsPending node now [] approved p k = k
  take_all-IsPending node now (item ∷ items) approved p k =
      by_item (suggestion_of keys texts item) (λ s. take_up-IsPending node s now approved p k)
        (take_all-IsPending node now items approved)
    where
      by_item :
          (r : Result Suggestion)
          → ((s : Suggestion) → IsPending approved (take_up keys texts node s now p).1)
          → ((q : Progress)
              → IsPending approved q
              → IsPending approved (take_all keys texts node now items q).1)
          → IsPending approved
              (continue
                (λ s q.
                  continue
                    (λ a. take_all keys texts node now items)
                    (take_up keys texts node s now q))
                (r, p)).1
      by_item (err e) one rest = k
      by_item (ok s) one rest =
          after_one node now items approved (take_up keys texts node s now p) rest (one s)

  -- The outcome of `suggest`: the approved edges are as before, and what it returns is pending.
  abbrev pub OnlyPending : GraphSession → Result (List GraphEdge) × GraphSession → Type 0
  OnlyPending s (ok created, t) =
      (approved_edges t.graph ≡ approved_edges s.graph) × All (λ e. e.approved ≡ false) created
  OnlyPending s (err e, t) = approved_edges t.graph ≡ approved_edges s.graph

  finish-OnlyPending :
      (s : GraphSession) (out : Result (Unit {0}) × Progress)
      → IsPending (approved_edges s.graph) out.1
      → OnlyPending s (finish keys texts s out)
  finish-OnlyPending s (ok a, p) k = (k.held_same, k.created_pending)
  finish-OnlyPending s (err e, p) k = k.saved_same

  store-OnlyPending :
      (node : GraphNode) (now : Time) (items : List Json) (s : GraphSession)
      → OnlyPending s (store keys texts node now items s)
  store-OnlyPending node now items s = finish-OnlyPending s _ (
      take_all-IsPending node now items (approved_edges s.graph)
        (record { saved = s.graph; held = s.graph; created = [] })
        (record { saved_same = refl; held_same = refl; created_pending = tt }))

  OnlyPending-from :
      (s t : GraphSession) (out : Result (List GraphEdge) × GraphSession)
      → t.graph ≡ s.graph
      → OnlyPending t out
      → OnlyPending s out
  OnlyPending-from s t (ok created, u) same h = (h.0 ∙ ap approved_edges same, h.1)
  OnlyPending-from s t (err e, u) same h = h ∙ ap approved_edges same

  continue-OnlyPending :
      {A : Type 0} (s : GraphSession) (f : A → Action GraphSession (List GraphEdge))
      (out : Result A × GraphSession)
      → out.1.graph ≡ s.graph
      → ((a : A) (t : GraphSession) → t.graph ≡ s.graph → OnlyPending s (f a t))
      → OnlyPending s (continue f out)
  continue-OnlyPending s f (ok a, t) same h = h a t same
  continue-OnlyPending s f (err e, t) same h = ap approved_edges same

  module _ ⦃c : Context⦄ where
    -- Whatever the model answers, and whether or not `suggest` raises, the approved edges are as
    -- they were, and every edge that it returns is pending.
    pub suggest-OnlyPending :
        (provider : Provider) (model : Option String) (node_id : ℕ) (now : Time) (s : GraphSession)
        → OnlyPending s (suggest keys texts provider model node_id now s)
    unfolding suggest
    suggest-OnlyPending provider model node_id now s =
        continue-OnlyPending s _ (node_or_raise (node_at node_id s.graph.nodes), s) refl
          λ node t h.
            continue-OnlyPending s _ (provider.complete (texts.prompt node) model, t) h
              λ used u k.
                continue-OnlyPending s _
                  (
                    array_of keys texts (texts.array_in used.text),
                    (log_usage keys texts used now u).1,
                  )
                  k
                  λ items w j.
                    OnlyPending-from s w (store keys texts node now items w) j
                      (store-OnlyPending node now items w)
