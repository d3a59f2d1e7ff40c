-- ===== src/Renderers/Configure.antt =====
-- configure_form.js and users_form.js.
use product_private_paas.Common.{codes, true, [], ◌∷◌, ◌++◌, if◌then◌else◌}
use product_private_paas.Json.{Fields}
use product_private_paas.Export.{Result}
use product_private_paas.Renderers.{
  text, flag, Page, take_all, content_body, index_page, index_error, choose, is_hbs,
}
use product_private_paas.Renderers.Applications.{application_title, breadcrumbs, form_context}

unfoldable pub group_editor_page : Fields → Page
unfolding take_all
group_editor_page d =
    index_page application_title
      (breadcrumbs d ++ ((codes "groupEditor", flag true) ∷ form_context d))
      (codes "applications_group_editor")
      (form_context d
        ++ take_all
            (codes "appName"
              ∷ codes "editorCartridges"
              ∷ codes "form_action"
              ∷ codes "formHtml"
              ∷ codes "formData"
              ∷ codes "formDataRaw"
              ∷ codes "formDataEdit"
              ∷ codes "isForm"
              ∷ codes "isEdit"
              ∷ codes "isUpdate"
              ∷ codes "formTitle"
              ∷ [])
            d)
      d

unfoldable pub configure_page : Fields → Page
unfolding take_all
configure_page d =
    index_page (codes "WSO2 Private PaaS - Configure")
      (breadcrumbs d
        ++ (take_all
              (codes "buttonText"
                ∷ codes "isForm"
                ∷ codes "isEdit"
                ∷ codes "isUpdate"
                ∷ codes "formTitle"
                ∷ [])
              d
            ++ (form_context d ++ (codes "page", text (codes "config")) ∷ [])))
      (codes "configure_form")
      (form_context d
        ++ (take_all
              (codes "form_action"
                ∷ codes "formData"
                ∷ codes "formDataRaw"
                ∷ codes "formTitle"
                ∷ codes "formtype"
                ∷ codes "buttonText"
                ∷ codes "dependancy"
                ∷ codes "isForm"
                ∷ codes "isEdit"
                ∷ codes "isUpdate"
                ∷ codes "formDataUpdate"
                ∷ codes "formDataEdit"
                ∷ [])
              d
            ++ content_body (codes "list_data") d ∷ []))
      d

unfoldable pub configure_form : Fields → Result Page
unfolding is_hbs group_editor_page configure_page index_error
configure_form d =
    choose d
      (if is_hbs (codes "applicationsGroupEditor") d then group_editor_page d else configure_page d)
      (index_error d)

unfoldable pub users_form : Fields → Result Page
unfolding take_all index_error
users_form d =
    choose d
      (index_page (codes "WSO2 Private PaaS - User Managment")
        (breadcrumbs d
          ++ (take_all (codes "formTitle" ∷ codes "isForm" ∷ []) d
              ++ (codes "page", text (codes "user")) ∷ []))
        (codes "users_form")
        (form_context d
          ++ (take_all
                (codes "formHtml"
                  ∷ codes "formData"
                  ∷ codes "formDataRaw"
                  ∷ codes "formTitle"
                  ∷ codes "formtype"
                  ∷ codes "isForm"
                  ∷ [])
                d
              ++ content_body (codes "list_data") d ∷ []))
        d)
      (index_error d)
