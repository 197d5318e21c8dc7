-- ===== src/Scale/Posts.antt =====
-- What a confirmed run posts.
use hellogit.Common.{ℕ, ◌≡◌, refl, ap, ◌∙◌, true, false, some, List, [], ◌∷◌}
use hellogit.Rest.{ok}
use hellogit.Scale.Types.{
  NodeType, master, data_node, ml, ingest, Counts, set_count, Nodes, Slider, Page,
  post_elastic_nodes,
}
use hellogit.Scale.{
  new_slider, node_return, no_counts, run_elasticsearch_scale, run_confirm_closed,
  replied_get_elastic_nodes, slide, or_zero,
}

-- Every slider moved, in order.
abbrev pub slides : List (NodeType × ℕ) → Page → Page
slides [] p = p
slides ((type, n) ∷ ms) p = slides ms (slide type n p)

-- Every count set, in order.
abbrev pub settled : List (NodeType × ℕ) → Counts → Counts
settled [] c = c
settled ((type, n) ∷ ms) c = settled ms (set_count type n c)

-- No count is undefined.
abbrev pub filled : Counts → Counts
filled c = record {
  master_count = some (or_zero c.master_count);
  data_count = some (or_zero c.data_count);
  ml_count = some (or_zero c.ml_count);
  ingest_count = some (or_zero c.ingest_count);
}

-- The four sliders of a response with other counts.
abbrev with_counts : Nodes → ℕ → ℕ → ℕ → ℕ → List Slider
with_counts nodes a b c d =
    record (new_slider nodes master) { current_count = a }
    ∷ record (new_slider nodes data_node) { current_count = b }
    ∷ record (new_slider nodes ml) { current_count = c }
    ∷ record (new_slider nodes ingest) { current_count = d }
    ∷ []

posted_lem :
    (ms : List (NodeType × ℕ)) (nodes : Nodes) (a b c d : ℕ) (p : Page)
    → node_return
        (slides ms (record p { node_sliders = with_counts nodes a b c d })).node_sliders
        no_counts
      ≡ settled ms (record {
        master_count = some a;
        data_count = some b;
        ml_count = some c;
        ingest_count = some d;
      })
unfolding node_return slide new_slider
posted_lem [] nodes a b c d p = refl
posted_lem ((master, n) ∷ ms) nodes a b c d p = posted_lem ms nodes n b c d p
posted_lem ((data_node, n) ∷ ms) nodes a b c d p = posted_lem ms nodes a n c d p
posted_lem ((ml, n) ∷ ms) nodes a b c d p = posted_lem ms nodes a b n d p
posted_lem ((ingest, n) ∷ ms) nodes a b c d p = posted_lem ms nodes a b c n p

slides-status : (ms : List (NodeType × ℕ)) (p : Page) → (slides ms p).status ≡ p.status
unfolding slide
slides-status [] p = refl
slides-status ((type, n) ∷ ms) p = slides-status ms (slide type n p)

-- The nodes have come, sliders are moved, and a run is confirmed while none is in progress: then
-- each count that is posted is the last that its slider was moved to, or else that of the response,
-- or 0 where the response has none.
pub run_confirm_closed-posts :
    (nodes : Nodes) (ms : List (NodeType × ℕ)) (p : Page)
    → p.status ≡ false
    → (run_confirm_closed true (slides ms (replied_get_elastic_nodes (ok nodes) p).0)).1
      ≡ post_elastic_nodes (settled ms (filled nodes.counts)) ∷ []
unfolding run_confirm_closed run_elasticsearch_scale replied_get_elastic_nodes new_slider
run_confirm_closed-posts nodes ms p idle =
    let q = (replied_get_elastic_nodes (ok nodes) p).0 in
    let c = nodes.counts in
    rw (slides-status ms q ∙ idle) (
      ap (λ x. post_elastic_nodes x ∷ [])
        (posted_lem ms nodes (or_zero c.master_count) (or_zero c.data_count) (or_zero c.ml_count)
          (or_zero c.ingest_count) (record p { server_node_count = nodes.nodes_of_server })))
