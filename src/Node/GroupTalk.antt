-- ===== src/Node/GroupTalk.antt =====
-- Group messages, from `send_group` to the group receiver of a member.
use lxmf_react_native_rust.Prelude.Map.{bytes_Eq}
use lxmf_react_native_rust.Node.Inbox
