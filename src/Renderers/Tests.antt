-- ===== src/Renderers/Tests.antt =====
-- Tests of the renderers.
use product_private_paas.Common.{codes, text_eq, ◌≡◌, refl, false}
use product_private_paas.Json.{Fields, no_fields, field, str, arr, no_items, item, get_field}
use product_private_paas.Export.{ok}
use product_private_paas.Export.Cleanup.{length_is_zero}
use product_private_paas.Renderers.{has_no_error, has_length_zero}
use product_private_paas.Renderers.Errors.{
  render, applications_form_js, is_ok, is_readable, render_returns, render_hides,
}

abbrev no_data : Fields
no_data = no_fields

-- The error of a request, and with it the document of an application.
abbrev failed : Fields
failed = field (codes "error") (arr (item (str (codes "timeout")) no_items)) no_fields

abbrev failed_topology : Fields
failed_topology =
    field (codes "applicationHbs") (str (codes "applicationTopology"))
      (field (codes "applicationJSON") (str (codes "secret")) failed)

test_has_no_error : has_no_error failed ≡ ok false
unfolding has_no_error has_length_zero length_is_zero get_field text_eq
test_has_no_error = refl

test_same_error : get_field (codes "error") failed_topology ≡ get_field (codes "error") failed
unfolding get_field text_eq
test_same_error = refl

test_no_data : is_readable (get_field (codes "error") no_data) ≡ false
unfolding get_field
test_no_data = refl

render_returns_example :
    is_ok (render applications_form_js no_data) ≡ is_readable (get_field (codes "error") no_data)
render_returns_example = render_returns applications_form_js no_data

test_failed_topology : has_no_error failed_topology ≡ ok false
unfolding has_no_error has_length_zero length_is_zero get_field text_eq
test_failed_topology = refl

render_hides_example :
    render applications_form_js failed_topology ≡ render applications_form_js failed
render_hides_example =
    render_hides applications_form_js failed_topology failed test_same_error test_failed_topology
