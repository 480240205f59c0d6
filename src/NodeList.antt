-- ===== src/NodeList.antt =====
-- src/visitors/attribute_info.c, src/visitors/member_info.c and the lists of src/visitors/class_file.c:
-- arrays that grow, are searched and lose elements, and the operations on one member.
pub mod Growth
pub mod Members
pub mod Search
pub mod Editing
pub mod Copying
mod Runs
