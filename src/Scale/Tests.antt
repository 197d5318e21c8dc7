-- ===== src/Scale/Tests.antt =====
-- Three masters are asked for, and the theorems at that.
use hellogit.Common.{◌≡◌, refl, true, false, none, some, List, [], ◌∷◌}
use hellogit.Rest.{ok, http_error}
use hellogit.Scale.Types.{master, ml, Nodes, Page, post_elastic_nodes}
use hellogit.Scale.{
  Event, slide_to, reply_post_nodes, broadcast, no_counts, constructed, run_confirm_closed,
  replied_get_elastic_nodes,
}
use hellogit.Scale.Posts.{slides, settled, filled, run_confirm_closed-posts}

abbrev nodes : Nodes
nodes = record {
  counts = record {
    master_count = some 1;
    data_count = some 2;
    ml_count = none;
    ingest_count = some 1;
  };
  max_scale_counts = no_counts;
  nodes_of_server = 4;
}

abbrev page : Page
page = constructed true true

page_idle : page.status ≡ false
unfolding constructed
page_idle = refl

three_masters : settled ((master, 3) ∷ []) (filled nodes.counts) ≡ record {
  master_count = some 3;
  data_count = some 2;
  ml_count = some 0;
  ingest_count = some 1;
}
three_masters = refl

run_confirm_closed-posts_example :
    (run_confirm_closed true
      (slides ((master, 3) ∷ []) (replied_get_elastic_nodes (ok nodes) page).0)).1
    ≡ post_elastic_nodes (settled ((master, 3) ∷ []) (filled nodes.counts)) ∷ []
run_confirm_closed-posts_example = run_confirm_closed-posts nodes ((master, 3) ∷ []) page page_idle

abbrev refusal : List Event
refusal = reply_post_nodes http_error ∷ broadcast "COMPLETED" "Other job" ∷ slide_to ml 2 ∷ []
