-- ===== src/Trace/Tree.antt =====
-- The state of `FullTraceTreeModel` of
-- apps/perseval-app/src/screens/failure_inbox/full_trace_tree.rs: pages, expanded spans and pages
-- that are being loaded. A span id is a text; a page holds the fields of its rows that are read.
pub mod Loads
use Prim.Native.String.{String}
use perseval.Base.{
  ℕ, ◌+◌, ◌/◌, List, [], ◌∷◌, ◌++◌, Option, none, some, Bool, true, false, not, ◌&&◌, if◌then◌else◌,
  length, contains, discard, include, text_dec, ℕ_discrete, retain, map,
}
use perseval.Controllers.Cache.{Cache, new, clear, insert, contains_key, values}

abbrev pub tree_page_size : ℕ
tree_page_size = 500

-- `TreePageKey`: the parent span, and the page.
abbrev pub TreePageKey : Type 0
TreePageKey = Option String × ℕ

unfoldable pub tree_page_key : Option String → ℕ → TreePageKey
tree_page_key parent_span_id offset = (parent_span_id, offset / tree_page_size)

pub record SpanRow : Type 0 where
  pub span_id : String
  pub has_children : Bool

pub record SpanTreePage : Type 0 where
  pub rows : List SpanRow
  pub total : ℕ

pub record FullTraceTreeModel : Type 0 where
  pub pages : Cache TreePageKey SpanTreePage
  pub expanded : List String
  pub loading : List TreePageKey

unfoldable pub new_tree : ℕ → FullTraceTreeModel
unfolding new
new_tree cached_pages = record { pages = new cached_pages; expanded = []; loading = [] }

unfoldable pub clear_tree : FullTraceTreeModel → FullTraceTreeModel
unfolding clear
clear_tree m = record { pages = clear m.pages; expanded = []; loading = [] }

unfoldable pub toggle : String → FullTraceTreeModel → FullTraceTreeModel × Bool
toggle span_id m =
    if contains text_dec span_id m.expanded
    then (record m { expanded = discard text_dec span_id m.expanded }, false)
    else (record m { expanded = include text_dec span_id m.expanded }, true)

unfoldable pub is_expanded : String → FullTraceTreeModel → Bool
is_expanded span_id m = contains text_dec span_id m.expanded

abbrev pub parent_ids : List SpanRow → List String
parent_ids [] = []
parent_ids (span ∷ rows) =
    if span.has_children then span.span_id ∷ parent_ids rows else parent_ids rows

abbrev pub page_parents : List SpanTreePage → List String
page_parents [] = []
page_parents (page ∷ pages) = parent_ids page.rows ++ page_parents pages

-- `extend` on the hash set.
abbrev pub extend : List String → List String → List String
extend [] expanded = expanded
extend (id ∷ ids) expanded = extend ids (include text_dec id expanded)

unfoldable pub expand_all_loaded : FullTraceTreeModel → FullTraceTreeModel
unfolding values
expand_all_loaded m = record m { expanded = extend (page_parents (values m.pages)) m.expanded }

module _ (key_dec : Discrete TreePageKey) where
  unfoldable pub begin_tree_load : TreePageKey → FullTraceTreeModel → FullTraceTreeModel × Bool
  begin_tree_load key m =
      if contains_key key_dec key m.pages
      then (m, false)
      else if contains key_dec key m.loading
      then (m, false)
      else (record m { loading = include key_dec key m.loading }, true)

  unfoldable pub finish_tree_load :
      TreePageKey → SpanTreePage → FullTraceTreeModel → FullTraceTreeModel
  finish_tree_load key page m = record m {
    loading = discard key_dec key m.loading;
    pages = (insert key_dec key page m.pages).0;
  }

  unfoldable pub fail_tree_load : TreePageKey → FullTraceTreeModel → FullTraceTreeModel
  fail_tree_load key m = record m { loading = discard key_dec key m.loading }

  unfoldable pub has_page : TreePageKey → FullTraceTreeModel → Bool
  has_page key m = contains_key key_dec key m.pages
