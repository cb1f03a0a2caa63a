-- ===== src/Connections/Suggest.antt =====
-- engine/connections/service.py: `suggest`, which asks a language model for related entities.
use capital.Prelude.{
  ℕ, String, ◌==◌, Bool, false, ◌&&◌, ◌||◌, Option, none, some, List, [], ◌∷◌, ◌++◌, find, eqb,
  if◌then◌else◌,
}
use capital.Context.{Context}
use capital.Models.{Database, Time}
use capital.Effects.{Result, ok, err, llm_error, json_error}
use capital.Effects.Fallible as F
use capital.Effects.Stateful.{Action, ◌>>=◌, ◌>>◌, pure, lift}
use capital.Ai.Usage.{Completion, Normaliser, record_usage}
use capital.Ai.Decisions.{Provider}
use capital.Json.{Json, text, get, or_json, elements}
use capital.Connections.{GraphNode, GraphEdge, Graph, Keys, node_at, has_label, get_or_create_node}

-- The standard library, as `suggest` uses it: the wording of the prompt among it.
pub record Texts : Type 0 where
  pub norm : Normaliser
  pub prompt : GraphNode → String
  pub array_in : String → Option String
  pub loads : String → Result Json
  pub show : Json → String
  pub strip : String → String
  pub lower : String → String

-- The graph and the table of usage.
pub record GraphSession : Type 0 where
  pub graph : Graph
  pub db : Database

-- A run through the suggestions: what is committed, what the session holds, the edges so far.
pub record Progress : Type 0 where
  pub saved : Graph
  pub held : Graph
  pub created : List GraphEdge

pub record Suggestion : Type 0 where
  pub label : String
  pub kind : String
  pub relation : String

abbrev pub same_edge : ℕ → ℕ → String → GraphEdge → Bool
same_edge source target relation e =
    eqb e.source_id source && eqb e.target_id target && e.relation == relation

-- The creation of a node commits all that the session holds.
abbrev pub saved_after : Option GraphNode → Graph → Graph → Graph
saved_after (some n) saved held = saved
saved_after none saved held = held

-- The edge to another node, unless it is there.
abbrev pub link_unless : Option GraphEdge → GraphEdge → Progress → Progress
link_unless (some e) new p = p
link_unless none new p = record p {
  held = record p.held { edges = p.held.edges ++ new ∷ [] };
  created = p.created ++ new ∷ [];
}

-- `except json.JSONDecodeError: raise LLMError`
abbrev pub parsed : Result Json → Result Json
parsed (ok x) = ok x
parsed (err json_error) = err llm_error
parsed (err e) = err e

abbrev pub node_or_raise : Option GraphNode → Result GraphNode
node_or_raise none = err llm_error
node_or_raise (some n) = ok n

module _ (keys : Keys) (texts : Texts) where
  abbrev pub new_edge : ℕ → ℕ → String → Time → Graph → GraphEdge
  new_edge source target relation now g = record {
    id = keys.edge_id g.edges;
    source_id = source;
    target_id = target;
    relation = relation;
    origin = "ai";
    approved = false;
    created_at = some now;
  }

  abbrev pub link : GraphNode → String → Time → GraphNode → Progress → Progress
  link node relation now other p =
      link_unless (find (same_edge node.id other.id relation) p.held.edges)
        (new_edge node.id other.id relation now p.held) p

  abbrev pub linked :
      GraphNode
      → Suggestion
      → Time
      → Progress
      → Result GraphNode × Graph
      → Result (Unit {0}) × Progress
  linked node s now p (err e, g) = (err e, p)
  linked node s now p (ok other, g) =
      let saved = saved_after (find (has_label s.label) p.held.nodes) p.saved g in
      (ok tt, link node s.relation now other (record p { saved = saved; held = g }))

  -- One suggestion; one without a label, or of the subject itself, is passed over.
  abbrev pub take_up : GraphNode → Suggestion → Time → Action Progress (Unit {0})
  take_up node s now p =
      if s.label == "" || texts.lower s.label == texts.lower node.label
      then (ok tt, p)
      else linked node s now p (get_or_create_node keys s.label s.kind p.held)

  abbrev pub shown_or : String → Option Json → String
  shown_or default v = texts.show (or_json (text default) v)

  abbrev pub suggestion_of : Json → Result Suggestion
  suggestion_of item = F.◌>>=◌ (get "label" item) λ label. F.◌>>=◌ (get "kind" item) λ kind.
      F.◌>>=◌ (get "relation" item) λ relation. ok (record {
        label = texts.strip (shown_or "" label);
        kind = shown_or "concept" kind;
        relation = keys.slice 40 (shown_or "related" relation);
      })

  abbrev pub take_all : GraphNode → Time → List Json → Action Progress (Unit {0})
  take_all node now [] = pure tt
  take_all node now (item ∷ items) = do
    s ← lift (suggestion_of item)
    take_up node s now
    take_all node now items

  -- The end of the run: what the session holds is committed, unless an exception dropped it.
  abbrev pub finish :
      GraphSession → Result (Unit {0}) × Progress → Result (List GraphEdge) × GraphSession
  finish s (ok a, p) = (ok p.created, record s { graph = p.held })
  finish s (err e, p) = (err e, record s { graph = p.saved })

  abbrev pub store : GraphNode → Time → List Json → Action GraphSession (List GraphEdge)
  store node now items s =
      finish s (take_all node now items (record { saved = s.graph; held = s.graph; created = [] }))

  -- The array in an answer.
  abbrev pub array_of : Option String → Result (List Json)
  array_of none = err llm_error
  array_of (some found) = F.◌>>=◌ (parsed (texts.loads found)) elements

  module _ ⦃c : Context⦄ where
    -- `record_usage(...)`, which commits.
    abbrev pub log_usage : Completion → Time → Action GraphSession (Unit {0})
    log_usage used now s = (
      ok tt,
      record s {
        db = (record_usage texts.norm used (some "connections.suggest") none none now s.db).1;
      },
    )

    unfoldable pub suggest :
        Provider → Option String → ℕ → Time → Action GraphSession (List GraphEdge)
    unfolding get_or_create_node record_usage
    suggest provider model node_id now = do
      node ← (λ s. (node_or_raise (node_at node_id s.graph.nodes), s))
      completion ← lift (provider.complete (texts.prompt node) model)
      log_usage completion now
      items ← lift (array_of (texts.array_in completion.text))
      store node now items
