-- ===== src/Mips/Tests.antt =====
-- A kit of two nodes, a refused deletion, and the theorems at them.
use hellogit.Common.{codes, join_with, ◌≡◌, refl, true, false, none, some, [], ◌∷◌, ◌++◌, map}
use hellogit.Mips.{
  Node, Page, Errors, display, post_array, post_object, constructed, marked, mips_loop,
  deployed_loop, update_mips_data, add_failed, construct_post_validation_error_message, keys_loop,
  errors_loop,
}
use hellogit.Mips.Messages.{lines_of, add_failed-lines}

abbrev laptop : Node
laptop = record {
  hostname = codes "mip1";
  node_type = codes "MIP";
  jobs = some (
      record { job_name = codes "create"; complete = true; error = false }
      ∷ record { job_name = codes "deploy"; complete = true; error = false }
      ∷ []);
  is_deployed = none;
  is_removing = false;
}

abbrev sensor : Node
sensor = record {
  hostname = codes "sensor1";
  node_type = codes "Sensor";
  jobs = none;
  is_deployed = none;
  is_removing = false;
}

abbrev page : Page
page = update_mips_data (sensor ∷ laptop ∷ []) constructed

shown : (page.mips ≡ 1 ∷ []) × ((page.objects 1).is_deployed ≡ some true)
unfolding update_mips_data mips_loop marked deployed_loop constructed
shown = (refl, refl)

abbrev errors : Errors
errors =
    (codes "hostname", codes "taken" ∷ codes "too long" ∷ []) ∷ (codes "ip", codes "used" ∷ []) ∷ []

written :
    construct_post_validation_error_message errors
    ≡ codes "hostname:     taken\nhostname:     too long\n\nip:     used"
unfolding construct_post_validation_error_message keys_loop errors_loop
written = refl

add_failed-lines_example :
    (add_failed (post_object errors)
      ≡ display (join_with (codes "\n\n") (map lines_of errors)) ∷ [])
    × (add_failed (post_array (codes "a" ∷ codes "b" ∷ []))
        ≡ display (codes "undefined" ++ join_with (codes "\n") (codes "a" ∷ codes "b" ∷ [])) ∷ [])
add_failed-lines_example = add_failed-lines errors (codes "a") (codes "b" ∷ [])
