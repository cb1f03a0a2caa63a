-- ===== src/Connections.antt =====
-- engine/connections/models.py and engine/connections/service.py: the graph of related assets. The
-- primary keys that the database gives, `str.strip`, `str.lower`, the slices of texts, the search
-- for a JSON array and `json.loads` are parameters.
pub mod Suggest
pub mod Pending
use capital.Prelude.{
  ℕ, String, ◌==◌, Bool, true, false, ◌&&◌, ◌||◌, Option, none, some, List, [], ◌∷◌, ◌++◌, map,
  find, select, length, eqb, leb, if◌then◌else◌,
}
use capital.Models.{Time}
use capital.Effects.{Result, ok, err, other_error}
use capital.Effects.Stateful.{Action}

pub record GraphNode : Type 0 where
  pub id : ℕ
  pub label : String
  pub kind : String
  pub symbol : Option String
  pub icon : Option String

pub record GraphEdge : Type 0 where
  pub id : ℕ
  pub source_id : ℕ
  pub target_id : ℕ
  pub relation : String
  pub origin : String
  pub approved : Bool
  pub created_at : Option Time

pub record Graph : Type 0 where
  pub nodes : List GraphNode
  pub edges : List GraphEdge

pub record Keys : Type 0 where
  pub node_id : List GraphNode → ℕ
  pub edge_id : List GraphEdge → ℕ
  -- `label[:120]` and `relation[:40]`
  pub slice : ℕ → String → String

-- `graph`
unfoldable pub view : Bool → Graph → List GraphNode × List GraphEdge
view include_pending g =
    (g.nodes, if include_pending then g.edges else select (λ e. e.approved) g.edges)

abbrev pub has_label : String → GraphNode → Bool
has_label label n = n.label == label

abbrev pub symbol_is : String → Option String → Bool
symbol_is symbol none = false
symbol_is symbol (some s) = s == symbol

abbrev pub has_symbol : String → GraphNode → Bool
has_symbol symbol n = symbol_is symbol n.symbol

abbrev pub node_at : ℕ → List GraphNode → Option GraphNode
node_at id ns = find (λ n. eqb n.id id) ns

abbrev pub edge_at : ℕ → List GraphEdge → Option GraphEdge
edge_at id es = find (λ e. eqb e.id id) es

-- An approved edge with an end at a node.
abbrev pub touches : ℕ → GraphEdge → Bool
touches id e = e.approved && (eqb e.source_id id || eqb e.target_id id)

abbrev pub other_end : ℕ → GraphEdge → ℕ
other_end id e = if eqb e.source_id id then e.target_id else e.source_id

abbrev pub label_of : Option GraphNode → List String
label_of none = []
label_of (some n) = n.label ∷ []

-- The labels of the ids that are nodes, until there are enough.
abbrev pub labels_from : ℕ → List GraphNode → List String → List ℕ → List String
labels_from limit nodes acc [] = acc
labels_from limit nodes acc (id ∷ ids) =
    let labels = acc ++ label_of (node_at id nodes) in
    let rest = labels_from limit nodes labels ids in
    if leb limit (length labels) then labels else rest

-- `as_set` is the order in which Python goes through the set of ids.
abbrev pub neighbours_of : (List ℕ → List ℕ) → ℕ → Graph → Option GraphNode → List String
neighbours_of as_set limit g none = []
neighbours_of as_set limit g (some node) =
    labels_from limit g.nodes []
      (as_set (map (other_end node.id) (select (touches node.id) g.edges)))

unfoldable pub neighbours : (List ℕ → List ℕ) → String → ℕ → Graph → List String
neighbours as_set symbol limit g = neighbours_of as_set limit g (find (has_symbol symbol) g.nodes)

-- The insertion of a node: the column `label` is unique.
abbrev pub add_unless : Option GraphNode → GraphNode → Action Graph GraphNode
add_unless (some n) new g = (err other_error, g)
add_unless none new g = (ok new, record g { nodes = g.nodes ++ new ∷ [] })

abbrev pub add_node : GraphNode → Action Graph GraphNode
add_node new g = add_unless (find (has_label new.label) g.nodes) new g

abbrev pub approve_row : ℕ → GraphEdge → GraphEdge
approve_row id e = if eqb e.id id then record e { approved = true } else e

abbrev pub approve_found : ℕ → Option GraphEdge → Graph → Option GraphEdge × Graph
approve_found id none g = (none, g)
approve_found id (some e) g =
    (some (record e { approved = true }), record g { edges = map (approve_row id) g.edges })

unfoldable pub approve : ℕ → Graph → Option GraphEdge × Graph
approve id g = approve_found id (edge_at id g.edges) g

-- `session.delete(edge)`
abbrev pub remove_edge : ℕ → List GraphEdge → List GraphEdge
remove_edge id [] = []
remove_edge id (e ∷ es) = if eqb e.id id then es else e ∷ remove_edge id es

abbrev pub delete_found : ℕ → Option GraphEdge → Graph → Bool × Graph
delete_found id none g = (false, g)
delete_found id (some e) g = (true, record g { edges = remove_edge id g.edges })

unfoldable pub delete_edge : ℕ → Graph → Bool × Graph
delete_edge id g = delete_found id (edge_at id g.edges) g

module _ (keys : Keys) where
  abbrev pub new_node : String → String → Option String → Option String → Graph → GraphNode
  new_node label kind symbol icon g = record {
    id = keys.node_id g.nodes;
    label = keys.slice 120 label;
    kind = kind;
    symbol = symbol;
    icon = icon;
  }

  abbrev pub node_or_new :
      String → String → Option String → Option String → Option GraphNode → Action Graph GraphNode
  node_or_new label kind symbol icon (some n) g = (ok n, g)
  node_or_new label kind symbol icon none g = add_node (new_node label kind symbol icon g) g

  unfoldable pub create_node :
      String → String → Option String → Option String → Action Graph GraphNode
  create_node label kind symbol icon g =
      node_or_new label kind symbol icon (find (has_label label) g.nodes) g

  -- `_get_or_create_node`
  unfoldable pub get_or_create_node : String → String → Action Graph GraphNode
  get_or_create_node label kind g =
      node_or_new label kind none none (find (has_label label) g.nodes) g
