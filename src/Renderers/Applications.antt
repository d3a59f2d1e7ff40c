-- ===== src/Renderers/Applications.antt =====
-- applications_form.js: one page for each value of `data.applicationHbs`.
use product_private_paas.Common.{Text, codes, true, [], ◌∷◌, ◌++◌, if◌then◌else◌}
use product_private_paas.Json.{Fields}
use product_private_paas.Export.{Result}
use product_private_paas.Renderers.{
  text, flag, Context, Page, take, take_all, content_body, index_page, index_error, choose, is_hbs,
}

abbrev pub application_title : Text
application_title = codes "WSO2 Private PaaS - Application Management"

abbrev pub breadcrumbs : Fields → Context
breadcrumbs d = take_all (codes "breadcrumbPathLevelOne" ∷ codes "breadcrumbPathLevelTwo" ∷ []) d

abbrev pub form_context : Fields → Context
form_context d = take (codes "formContext") (codes "breadcrumbPathLevelTwo") d ∷ []

unfoldable pub application_view : Fields → Page
unfolding take_all
application_view d =
    index_page application_title
      (breadcrumbs d
        ++ ((codes "topologyActive", flag true) ∷ (codes "page", text (codes "applications")) ∷ []))
      (codes "applications_view")
      (take_all (codes "applicationName" ∷ codes "applicationAlias" ∷ []) d
        ++ (form_context d
            ++ take_all (codes "appName" ∷ codes "applicationJSON" ∷ codes "formTitle" ∷ []) d))
      d

unfoldable pub application_topology : Fields → Page
unfolding take_all
application_topology d =
    index_page application_title (breadcrumbs d) (codes "applications_topology")
      (form_context d
        ++ (take_all
              (codes "appName"
                ∷ codes "topologyData"
                ∷ codes "applicationJSON"
                ∷ codes "applicationStatus"
                ∷ codes "form_action"
                ∷ codes "formHtml"
                ∷ codes "formData"
                ∷ codes "formDataRaw"
                ∷ codes "formDataEdit"
                ∷ codes "isForm"
                ∷ codes "isEdit"
                ∷ codes "formTitle"
                ∷ codes "dasStatsPublisherEnabled"
                ∷ codes "meteringDashboardUrl"
                ∷ [])
              d
            ++ content_body (codes "list_data") d ∷ []))
      d

unfoldable pub application_deploy : Fields → Page
unfolding take_all
application_deploy d =
    index_page application_title
      (breadcrumbs d
        ++ ((codes "page", text (codes "applications"))
            ∷ take_all (codes "isForm" ∷ codes "isEdit" ∷ []) d))
      (codes "applications_deploy")
      (form_context d
        ++ take_all
            (codes "applicationName"
              ∷ codes "applicationAlias"
              ∷ codes "applicationJSON"
              ∷ codes "editorCartridges"
              ∷ codes "editorGroups"
              ∷ codes "form_action"
              ∷ codes "applicationPolicyData"
              ∷ codes "formHtml"
              ∷ codes "formData"
              ∷ codes "formDataRaw"
              ∷ codes "formDataEdit"
              ∷ codes "isForm"
              ∷ codes "isEdit"
              ∷ codes "formTitle"
              ∷ [])
            d)
      d

unfoldable pub application_editor : Fields → Page
unfolding take_all
application_editor d =
    index_page application_title
      (breadcrumbs d
        ++ ((codes "page", text (codes "applications"))
            ∷ (form_context d ++ take_all (codes "isForm" ∷ []) d)))
      (codes "applications_editor")
      (form_context d
        ++ take_all
            (codes "appName"
              ∷ codes "editorCartridges"
              ∷ codes "editorGroups"
              ∷ codes "editorAutoscalePolicies"
              ∷ codes "editorDeploymentPolicies"
              ∷ codes "form_action"
              ∷ codes "formHtml"
              ∷ codes "formData"
              ∷ codes "formDataRaw"
              ∷ codes "formDataEdit"
              ∷ codes "isForm"
              ∷ codes "isEdit"
              ∷ codes "formTitle"
              ∷ [])
            d)
      d

unfoldable pub application_signup : Fields → Page
unfolding take_all
application_signup d =
    index_page application_title (breadcrumbs d) (codes "applications_signup")
      (take_all (codes "applicationName" ∷ codes "applicationAlias" ∷ []) d
        ++ (form_context d
            ++ take_all (codes "appName" ∷ codes "applicationJSON" ∷ codes "formTitle" ∷ []) d))
      d

unfoldable pub application_default : Fields → Page
unfolding take_all
application_default d =
    index_page application_title
      (breadcrumbs d
        ++ (take_all (codes "buttonText" ∷ []) d
            ++ ((codes "page", text (codes "applications"))
                ∷ take_all (codes "isForm" ∷ codes "formTitle" ∷ []) d)))
      (codes "applications_form")
      (form_context d
        ++ (take_all
              (codes "form_action"
                ∷ codes "formHtml"
                ∷ codes "formData"
                ∷ codes "formDataRaw"
                ∷ codes "formDataEdit"
                ∷ codes "formtype"
                ∷ codes "buttonText"
                ∷ codes "isForm"
                ∷ codes "isEdit"
                ∷ codes "formTitle"
                ∷ [])
              d
            ++ content_body (codes "list_data") d ∷ []))
      d

unfoldable pub application_page : Fields → Page
unfolding is_hbs application_view application_topology application_deploy application_editor
    application_signup application_default
application_page d =
    if is_hbs (codes "applicationView") d
    then application_view d
    else if is_hbs (codes "applicationTopology") d
    then application_topology d
    else if is_hbs (codes "applicationDeploy") d
    then application_deploy d
    else if is_hbs (codes "applicationEditor") d
    then application_editor d
    else if is_hbs (codes "applicationSignup") d
    then application_signup d
    else application_default d

unfoldable pub applications_form : Fields → Result Page
unfolding application_page index_error
applications_form d = choose d (application_page d) (index_error d)
