-- ===== src/Provider/Mesos/Labels.antt =====
-- provider/mesos/mesos.go: what single labels of a task say, and the names that are made of it.
use traefik.Prelude.{none, some, List, [], ◌++◌, Str, codes, if◌then◌else◌}
use mathlib.Core.Option.{get_or}
use traefik.Text.{split, join, trim_prefix, to_lower}
use traefik.Provider.Mesos.{Provider, Task, get_label, get_mesos}
use traefik.Provider.{replace, reverse_string_slice}

abbrev pub label_or : Str → Task → Str → Str
label_or default task label = get_or (get_label task label) default

-- What a label of the application of a task says, or a default, also if there is no application.
abbrev pub application_label : Str → Str → Task → List Task → Str
application_label default label task applications = elim (get_mesos task applications) [
  | none ↦ default
  | some application ↦ label_or default application label
]

unfoldable pub get_weight : Task → List Task → Str
get_weight task applications =
    application_label (codes "0") (codes "traefik.weight") task applications

unfoldable pub get_protocol : Task → List Task → Str
get_protocol task applications =
    application_label (codes "http") (codes "traefik.protocol") task applications

unfoldable pub get_domain : Provider → Task → Str
get_domain p task = label_or p.domain task (codes "traefik.domain")

unfoldable pub get_pass_host_header : Task → Str
get_pass_host_header task = label_or (codes "false") task (codes "traefik.frontend.passHostHeader")

unfoldable pub get_priority : Task → Str
get_priority task = label_or (codes "0") task (codes "traefik.frontend.priority")

unfoldable pub get_entry_points : Task → List Str
get_entry_points task = elim (get_label task (codes "traefik.frontend.entryPoints")) [
  | none ↦ []
  | some entry_points ↦ split b',' entry_points
]

unfoldable pub get_sub_domain : Provider → Str → Str
get_sub_domain p name =
    let trimmed = trim_prefix name (codes "/") in
    if p.groups_as_sub_domains
    then join (codes ".") (reverse_string_slice (split b'/' trimmed))
    else replace b'/' b'-' trimmed

unfoldable pub get_frontend_rule : Provider → Task → Str
get_frontend_rule p task = get_or (get_label task (codes "traefik.frontend.rule")) (
    codes "Host:"
    ++ to_lower (replace b'_' b'-' (get_sub_domain p task.name))
    ++ codes "."
    ++ p.domain)

unfoldable pub cleanup_special_chars : Str → Str
cleanup_special_chars s = replace b'_' b'-' (replace b':' b'-' (replace b'.' b'-' s))

unfoldable pub get_frontend_backend : Task → Str
get_frontend_backend task =
    get_or (get_label task (codes "traefik.backend")) (codes "-" ++ cleanup_special_chars task.name)

unfoldable pub get_backend : Task → List Task → Str
get_backend task applications = elim (get_mesos task applications) [
  | none ↦ []
  | some application ↦ get_frontend_backend application
]

unfoldable pub get_id : Task → Str
get_id task = cleanup_special_chars task.id

unfoldable pub get_front_end_name : Task → Str
get_front_end_name task = replace b'/' b'-' (cleanup_special_chars task.id)
