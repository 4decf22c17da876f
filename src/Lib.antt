-- ===== src/Lib.antt =====
-- Halyard: a web framework. This library models the parts of it that decide what is routed, what
-- a keyed list shows, and how a value is used again while it is in use.
--
-- Prelude holds what the components share: tests on the native numbers, lists indexed by them,
-- byte strings with the methods of `str` that the code calls (Bytes, Prefixes), arithmetic of
-- `usize` (Words), loops that collect indices (Ranges), results, and actions that keep the state
-- that they leave on errors (Actions).
--
-- Axum: the routes that the server adds to axum's router (halyard/src/axum/route_path.rs,
-- error.rs).
--   RoutePath is `RoutePath::parse` and `conflicts_with`, Registry is `RouteRegistry::admit`,
--   which calls both: `HalyardRoutes` asks it before `axum::Router::route`, which panics on what
--   it refuses. A path is its bytes. The loop of `parse` is on fuel, one unit for each byte left;
--   each round takes at least one, so that the fuel suffices. Methods and
--   `MethodFilter::try_from` are the interface `Http`.
--
-- Router: matching a path against routes (halyard/src/router/matching/).
--   Segments is horizontal/{mod,static_segment,param_segments}.rs, with the trait
--   `PossibleRouteMatch` as a record; Tuples is the macro of horizontal/tuples.rs on lists of any
--   length, its `loop` a recursion on the number of optional segments included, which each round
--   lowers; Optionals is `expand_optionals` of path_segment.rs, whose `while` is on fuel: a route
--   with n optional parameters takes 2^(n+1) - 1 rounds. StaticRoutes is `StaticParamsMap` and
--   `StaticPath::into_paths` of halyard/src/router/static_routes.rs. Nested is `match_nested` and
--   `match_route` (nested/mod.rs, nested/tuples.rs, mod.rs) on a tree of routes without views;
--   `trim_end_matches` is on fuel, a unit for each byte. ResolvePath is `resolve_path` of
--   resolve_path.rs. Lengths of strings are at most `isize::MAX`, so that their sums do not
--   overflow.
--
-- KeyedList: the update of a keyed list (halyard_tachys/src/view/list_diff.rs).
--   Diff is the plan (`diff`), Rows the checks before rows are built, Work and Apply carry the
--   plan out (`apply`), Reconcile is `reconcile` with the fallback to rendering from scratch. The
--   modules below them follow what the rows show from step to step (Work/Shown, Apply/Removed to
--   Carried, Rows/Places), which rows are on the page (Work/OnPage, Apply/OnPage, Pages/Counts), what
--   a plan lists (Diff/Moves, Diff/Planned), and join these (Reconcile/Suited, Shows, Updates).
--   `indexmap`'s sets are the interface `KeySets`, the rendered list (`ListOps`) is a record of
--   functions that pass its state on. Labels says what a row shows, and Pages which rows stand on
--   the page, with what mounting and unmounting do to it; in which order an update by a plan leaves
--   them there is not stated. `usize_max` is a parameter. The text of an `Invariant` is a
--   constructor; the errors of `ListError` that other
--   files report are left out.
--
-- Reactive: parts of the reactive graph (halyard_reactive_graph/src/).
--   Reentry is the record that a thread keeps of the values it is using (reentry.rs): Reentry has
--   the entries, `enter` and `exit`, Writing has `begin_write`, `resume_write` and the deferred
--   writes. The record is a list of entries, `none` while the thread shuts down; the writer turn,
--   the deferred writes and the shared read guard are the interface `Writes`, and a run is a
--   sequence of calls, the relation `Reachable`. PageData is hydration_context/page_data.rs, the
--   parsers of the data in the page, over the interface `JsValueLike`. Graph has the nodes of the
--   graph, by address in a store: signals, memos and effects with their states and links, the
--   marks that a change leaves (graph/, computed/inner.rs, effect/inner.rs,
--   signal/subscriber_traits.rs), `notify` of a trigger (signal/arc_trigger.rs), whose node is its set of
--   subscribers, and `track`. Marking is on fuel; a rank that falls from each node
--   to its subscribers, which a graph without cycles has, bounds it. A dropped node is missing from
--   the store. `indexmap`'s sets of addresses are the interface `IndexSets`. Observer is the
--   thread's observer and the scopes that replace it (graph/subscriber.rs), without unwinding.
--
-- Not modelled: views and the DOM, the values of memos and the tasks of effects, server functions
-- and resources, macros, and the asynchronous parts, which are calls of web_sys, axum and the executor or work
-- on the whole program's types.
pub mod Axum
pub mod KeyedList
pub mod Prelude
pub mod Reactive
pub mod Router
