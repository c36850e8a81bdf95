-- ===== src/Generator/Paths/Tests.antt =====
-- Paths of cmd/protoc-gen-go-mqtt/mqtt.go: runs and examples.
use kratos_transport_rpc.Prelude.{◌≡◌, refl, none, some, List, [], ◌∷◌, ◌++◌}
use kratos_transport_rpc.Prelude.Text.{codes}
use kratos_transport_rpc.Prelude.Maps.{store}
use kratos_transport_rpc.Generator.Paths.{
  build_path_vars, replace_path, braced, Fields, empty, field, scalar, message, check_vars,
  var_value, replace_var, trim_space, is_white, all_name, name_char, no_brace,
}
use kratos_transport_rpc.Generator.Paths.Vars.{
  Segment, literal, variable, render, vars_of, build_path_vars-render,
}
use kratos_transport_rpc.Generator.Paths.Replace.{replace_path-first}

abbrev segments : List Segment
segments =
    literal (codes "/v1/")
    ∷ variable (codes " name ") (some (codes "shelves/*"))
    ∷ literal (codes "/")
    ∷ variable (codes "book.id") none
    ∷ []

text : render segments ≡ codes "/v1/{ name =shelves/*}/{book.id}"
text = refl

build_path_vars-render_example :
    build_path_vars (codes "/v1/{ name =shelves/*}/{book.id}") ≡ vars_of segments []
unfolding name_char no_brace
build_path_vars-render_example = build_path_vars-render segments (
  (refl, (refl, (refl, (refl, tt)))),
  (
    (refl, (refl, (refl, (refl, (refl, (refl, tt)))))),
    (
      (refl, (refl, (refl, (refl, (refl, (refl, (refl, (refl, (refl, tt))))))))),
      ((refl, tt), ((refl, (refl, (refl, (refl, (refl, (refl, (refl, tt))))))), (tt, tt))),
    ),
  ),
)

vars : vars_of segments [] ≡ (codes "name", some (codes "shelves/*")) ∷ (codes "book.id", none) ∷ []
unfolding trim_space store var_value
vars = refl

-- The variable "idx" is replaced in place of "id".
replace_path-first_example :
    replace_path (codes "id") (codes "b*") (codes "/{idx=a}/{id=b*}")
    ≡ some (codes "/" ++ (braced (codes "id") (codes "b*") ++ codes "/{id=b*}"))
unfolding is_white no_brace all_name
replace_path-first_example =
    replace_path-first b'i' (codes "d") (codes "b*") (codes "/") (codes "x=a") (codes "/{id=b*}")
      refl refl (refl, tt) (refl, (refl, (refl, tt)))

replaced_text : braced (codes "id") (codes "b*") ≡ codes "{id:b.*}"
unfolding braced
replaced_text = refl

abbrev fields : Fields
fields = field (codes "book") (message (field (codes "id") scalar empty)) empty

checked :
    (check_vars fields ((codes "book.id", none) ∷ []) (codes "/a") ≡ some (codes "/a"))
    × (check_vars fields ((codes "id", none) ∷ []) (codes "/a") ≡ none)
unfolding check_vars replace_var
checked = (refl, refl)
